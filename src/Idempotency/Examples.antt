-- ===== src/Idempotency/Examples.antt =====
-- The idempotency store at concrete requests, and its theorems there.
use pre_code.Common.{◌≡◌, refl, false, List, [], ◌∷◌, arith, lookup}
use pre_code.Idempotency.{
  Store, ResponseWriter, response_writer, max_body_size, arrive, finish, waits, replays,
}
use pre_code.Idempotency.Capture.{take}
use pre_code.Idempotency.Body.{write_all, write_all-body}
use pre_code.Idempotency.Waiting.{Event, arrives, steps, arrive-waits, arrive-replays}

abbrev store : Store
store = record { entries = []; config = record { max_age = 100; max_entries = 3 } }

abbrev written : ResponseWriter
written = record { status_code = 201; body = 1 ∷ 2 ∷ []; skipped = false; sent = 1 ∷ 2 ∷ [] }

-- Requests with this key and another one.
abbrev others : List Event
others = arrives 20 "pay" ∷ arrives 30 "refund" ∷ []

arrive-waits_example :
    let s = steps others (arrive 10 "pay" store).0 in arrive 40 "pay" s ≡ (s, waits)
unfolding arrive lookup
arrive-waits_example =
    arrive-waits 10 40 "pay" store others refl (omega arith) refl
      (λ e. omega arith, (λ e. omega arith, tt)) (omega arith)

arrive-replays_example :
    let s = steps others (finish 10 "pay" written [] store) in
    arrive 40 "pay" s ≡ (
      s,
      replays (record {
        status_code = 201;
        body = 1 ∷ 2 ∷ [];
        headers = [];
        created_at = 10;
        processing = false;
      }),
    )
arrive-replays_example =
    arrive-replays 10 40 "pay" written [] store others refl (omega arith)
      (λ e. omega arith, (λ e. omega arith, tt)) (omega arith)

-- A store at its capacity, so that the request evicts `a`.
abbrev one_entry : Store
one_entry = record {
  entries =
      (
        "a",
        record { status_code = 200; body = []; headers = []; created_at = 1; processing = false },
      )
      ∷ [];
  config = record { max_age = 100; max_entries = 1 };
}

write_all-body_example :
    let w = write_all ((1 ∷ 2 ∷ []) ∷ (3 ∷ []) ∷ []) response_writer in
    (w.sent ≡ 1 ∷ 2 ∷ 3 ∷ []) × (w.body ≡ take max_body_size (1 ∷ 2 ∷ 3 ∷ []))
write_all-body_example = write_all-body ((1 ∷ 2 ∷ []) ∷ (3 ∷ []) ∷ [])
