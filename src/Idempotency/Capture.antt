-- ===== src/Idempotency/Capture.antt =====
-- The `responseWriter` of internal/idempotency/idempotency.go, which keeps a copy of the response.
use pre_code.Common.{
  ℕ, ◌-◌, Bool, true, false, List, [], ◌∷◌, ◌++◌, length, ltb, ◌==◌, if◌then◌else◌,
}

-- `sent` is what the client gets, from the wrapped writer.
pub record ResponseWriter : Type 0 where
  pub status_code : ℕ
  pub body : List ℕ
  pub skipped : Bool
  pub sent : List ℕ

unfoldable pub response_writer : ResponseWriter
response_writer = record { status_code = 200; body = []; skipped = false; sent = [] }

-- Shut, so that no proof counts up to it.
unfoldable pub max_body_size : ℕ
max_body_size = 1048576

-- `b[:n]`, for `n` at most the length.
abbrev pub take : ℕ → List ℕ → List ℕ
take n [] = []
take n (b ∷ bs) = let rest = take (n - 1) bs in if n == 0 then [] else b ∷ rest

unfoldable pub write_header : ℕ → ResponseWriter → ResponseWriter
write_header code rw = record rw { status_code = code }

unfoldable pub write : List ℕ → ResponseWriter → ResponseWriter
write b rw =
    let remaining = max_body_size - length rw.body in
    record rw {
      body =
          if rw.skipped
          then rw.body
          else if remaining == 0
          then rw.body
          else if ltb remaining (length b)
          then rw.body ++ take remaining b
          else rw.body ++ b;
      skipped =
          if rw.skipped then true else if remaining == 0 then true else ltb remaining (length b);
      sent = rw.sent ++ b;
    }
