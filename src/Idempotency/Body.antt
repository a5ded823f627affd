-- ===== src/Idempotency/Body.antt =====
-- What the captured body is.
use pre_code.Common.{
  append_assoc, ℕ, suc, ◌-◌, ◌≤◌, ◌≡◌, refl, sym, ap, ◌∙◌, true, List, [], ◌∷◌, ◌++◌, length,
  length-append, ltb, leb, ◌==◌, if◌then◌else◌, Bool-cases, arith, inl, inr,
}
use mathlib.Core.Bool.{true≢false}
use pre_code.Idempotency.Capture.{ResponseWriter, response_writer, max_body_size, take, write}

-- The handler's writes, in order.
unfoldable pub write_all : List (List ℕ) → ResponseWriter → ResponseWriter
write_all [] rw = rw
write_all (b ∷ bs) rw = write_all bs (write b rw)

take-all : (n : ℕ) (xs : List ℕ) → length xs ≤ n → take n xs ≡ xs
take-all n [] h = refl
take-all n (x ∷ xs) h = ground (arith, take-all (n - 1) xs _)

take_none : (n : ℕ) (xs : List ℕ) → n ≡ 0 → take n xs ≡ []
take_none n [] e = refl
take_none n (x ∷ xs) e = ground (arith, e)

take-append : (n : ℕ) (xs ys : List ℕ) → take n (xs ++ ys) ≡ take n xs ++ take (n - length xs) ys
take-append n [] ys = ap (λ (m : ℕ). take m ys) (omega arith)
take-append n (x ∷ xs) ys = elim (Bool-cases (n == 0)) [
  | inl none ↦ rw none (sym (take_none (n - suc (length xs)) ys (ground (arith, none))))
  | inr some ↦ rw some (
      ap (λ (zs : List ℕ). x ∷ zs)
        (take-append (n - 1) xs ys ∙ ap (λ (m : ℕ). take (n - 1) xs ++ take m ys) (omega arith)))
]

length-take :
    (n : ℕ) (xs : List ℕ) → length (take n xs) ≡ (if leb n (length xs) then n else length xs)
length-take n [] = ground arith
length-take n (x ∷ xs) = ground (arith, length-take (n - 1) xs)

append_nil : (xs : List ℕ) → xs ++ [] ≡ xs
append_nil [] = refl
append_nil (x ∷ xs) = ap (λ (ys : List ℕ). x ∷ ys) (append_nil xs)

-- The copy after one more write, by the room that is left.
copy-take :
    (max room : ℕ) (sent b : List ℕ)
    → room ≡ max - length (take max sent)
    → (if room == 0
        then take max sent
        else if ltb room (length b)
        then take max sent ++ take room b
        else take max sent ++ b)
      ≡ take max (sent ++ b)
copy-take max room sent b e =
    let n : max - length sent ≡ room = ground (arith, e, length-take max sent) in
    let t : take max (sent ++ b) ≡ take max sent ++ take room b =
      take-append max sent b ∙ ap (λ (m : ℕ). take max sent ++ take m b) n in
    rw t (elim (Bool-cases (room == 0)) [
      | inl full ↦ rw full (
          sym (
            ap (λ (ys : List ℕ). take max sent ++ ys) (take_none room b (ground (arith, full)))
            ∙ append_nil (take max sent)))
      | inr has ↦ rw has (elim (Bool-cases (ltb room (length b))) [
        | inl more ↦ rw more refl
        | inr fits ↦ rw fits (
            ap (λ (ys : List ℕ). take max sent ++ ys)
              (sym (take-all room b (ground (arith, fits)))))
      ])
    ])

-- A writer whose copy is the first part of what the client got.
Captures : ResponseWriter → Type 0
Captures rw =
    (rw.body ≡ take max_body_size rw.sent) × (rw.skipped ≡ true → max_body_size ≤ length rw.sent)

take_full : (n : ℕ) (xs ys : List ℕ) → n ≤ length xs → take n (xs ++ ys) ≡ take n xs
take_full n xs ys h =
    take-append n xs ys
    ∙ ap (λ (zs : List ℕ). take n xs ++ zs) (take_none (n - length xs) ys (omega arith))
    ∙ append_nil (take n xs)

write-Captures : (b : List ℕ) (rw : ResponseWriter) → Captures rw → Captures (write b rw)
unfolding Captures write
write-Captures b rw (h, s) = elim (Bool-cases rw.skipped) [
  | inl skip ↦ (
    simp skip (h ∙ sym (take_full max_body_size rw.sent b (s skip))),
    λ skips. omega (arith, length-append rw.sent b, s skip),
  )
  | inr go ↦ (
    simp (go, h)
        (copy-take max_body_size (max_body_size - length (take max_body_size rw.sent)) rw.sent b
          refl),
    λ skips. ground (
      arith,
      go,
      skips,
      length-append rw.sent b,
      length-take max_body_size rw.sent,
      ap (λ (xs : List ℕ). length xs) h,
    ),
  )
]

write_all-Captures :
    (bs : List (List ℕ)) (rw : ResponseWriter) → Captures rw → Captures (write_all bs rw)
unfolding write_all
write_all-Captures [] rw h = h
write_all-Captures (b ∷ bs) rw h = write_all-Captures bs (write b rw) (write-Captures b rw h)

abbrev pub join : List (List ℕ) → List ℕ
join [] = []
join (b ∷ bs) = b ++ join bs

write_all-sent :
    (bs : List (List ℕ)) (rw : ResponseWriter) → (write_all bs rw).sent ≡ rw.sent ++ join bs
unfolding write_all write
write_all-sent [] rw = sym (append_nil rw.sent)
write_all-sent (b ∷ bs) rw = write_all-sent bs (write b rw) ∙ append_assoc rw.sent b (join bs)

-- After any writes of a handler, the client has got their bytes in order, and the copy that will be
-- cached is the first `max_body_size` of these bytes: all of them when there are no more than that,
-- and a cut body otherwise.
pub write_all-body :
    (bs : List (List ℕ))
    → let rw = write_all bs response_writer in
      (rw.sent ≡ join bs) × (rw.body ≡ take max_body_size (join bs))
unfolding Captures response_writer
write_all-body bs =
    let sent : (write_all bs response_writer).sent ≡ join bs = write_all-sent bs response_writer in
    let (body, full) =
      write_all-Captures bs response_writer (refl, λ skips. elim (true≢false (sym skips)) [ ]) in
    (sent, body ∙ ap (λ (xs : List ℕ). take max_body_size xs) sent)
