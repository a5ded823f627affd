-- ===== src/Retry/Rounds.antt =====
-- The retries against the search for the first call that ends them.
use mathlib.Core.Bool.{true≢false, not}
use pre_code.Common.{
  if◌then◌else◌, ℕ, zero, suc, ◌+◌, ◌≤◌, ◌≡◌, refl, sym, ap, ◌∙◌, Bool, true, false, Option, none,
  some, arith, Bool-cases, Option-cases, inl, inr,
}
use pre_code.Retry.{Policy, Attempts, ℤ, pos, negsuc, is_retryable, rounds_of, loop, execute}

module _ {E : Type 0} (p : Policy E) (w : Attempts E) where
  -- A call ends the search: it succeeds or fails for good.
  unfoldable pub ends : Option E → Bool
  ends none = true
  ends (some err) = not (is_retryable p err)

  -- The number of the first call from `i` on that ends the search, or of the last of `n` more.
  unfoldable pub ending : ℕ → ℕ → ℕ
  unfolding ends
  ending zero i = i
  ending (suc n) i = let rest = ending n (suc i) in if ends (w.call i) then i else rest

  -- One round behind its context: the result of the call, and what a failure does.
  round :
      (n i : ℕ) (last : Option E) (o : Option E)
      → w.done_before i ≡ none
      → w.call i ≡ o
      → ends o ≡ true
      → loop p w (suc n) i last ≡ (w.call i, suc i)
  unfolding ends loop
  round n i last none before e h = rw (loop, before) (rw e refl)
  round n i last (some err) before e h = elim (Bool-cases (is_retryable p err)) [
    | inl is ↦ absurd (true≢false (sym h ∙ ap not is))
    | inr isnt ↦ rw (loop, before) (rw e (rw isnt refl))
  ]

  last_round :
      (i : ℕ) (last : Option E) (o : Option E)
      → w.done_before i ≡ none
      → w.call i ≡ o
      → loop p w 1 i last ≡ (w.call i, suc i)
  unfolding loop
  last_round i last none before e = rw (loop, before) (rw e refl)
  last_round i last (some err) before e = elim (Bool-cases (is_retryable p err)) [
    | inl is ↦ rw (loop, before) (rw e (rw is refl))
    | inr isnt ↦ rw (loop, before) (rw e (rw isnt refl))
  ]

  retried :
      (n i : ℕ) (last : Option E) (o : Option E)
      → w.done_before i ≡ none
      → w.done_waiting i ≡ none
      → w.call i ≡ o
      → ends o ≡ false
      → loop p w (suc (suc n)) i last ≡ loop p w (suc n) (suc i) o
  unfolding ends loop
  retried n i last none before waiting e h = absurd (true≢false h)
  retried n i last (some err) before waiting e h = elim (Bool-cases (is_retryable p err)) [
    | inl is ↦ rw (loop, before) (rw e (rw is (rw waiting refl)))
    | inr isnt ↦ absurd (true≢false (sym (ap not isnt) ∙ h))
  ]

  interrupted :
      (n i : ℕ) (stop : E) (last : Option E) (o : Option E)
      → w.done_before i ≡ none
      → w.done_waiting i ≡ some stop
      → w.call i ≡ o
      → ends o ≡ false
      → loop p w (suc (suc n)) i last ≡ (some stop, suc i)
  unfolding ends loop
  interrupted n i stop last none before waiting e h = absurd (true≢false h)
  interrupted n i stop last (some err) before waiting e h = elim (Bool-cases (is_retryable p err)) [
    | inl is ↦ rw (loop, before) (rw e (rw is (rw waiting refl)))
    | inr isnt ↦ absurd (true≢false (sym (ap not isnt) ∙ h))
  ]

  loop-ending :
      (n i : ℕ) (last : Option E)
      → ((j : ℕ) → w.done_before j ≡ none)
      → ((j : ℕ) → w.done_waiting j ≡ none)
      → loop p w (suc n) i last ≡ (w.call (ending n i), suc (ending n i))
  unfolding ending
  loop-ending zero i last before waiting = last_round i last (w.call i) (before i) refl
  loop-ending (suc n) i last before waiting = elim (Bool-cases (ends (w.call i))) [
    | inl is ↦ rw is (round (suc n) i last (w.call i) (before i) refl is)
    | inr isnt ↦ rw isnt (
        retried n i last (w.call i) (before i) (waiting i) refl isnt
        ∙ loop-ending n (suc i) (w.call i) before waiting)
  ]

  loop-bounded : (n i : ℕ) (last : Option E) → (loop p w n i last).1 ≤ i + n
  unfolding loop
  loop-bounded zero i last = omega arith
  loop-bounded (suc zero) i last = elim (Option-cases (w.done_before i)) [
    | inr stop ↦ rw (loop, stop.1) (omega arith)
    | inl go ↦
        let one = ap (λ (r : Option E × ℕ). r.1) (last_round i last (w.call i) go refl) in
        omega (arith, one)
  ]
  loop-bounded (suc (suc n)) i last = elim (Option-cases (w.done_before i)) [
    | inr stop ↦ rw (loop, stop.1) (omega arith)
    | inl go ↦ elim (Bool-cases (ends (w.call i))) [
      | inl is ↦
          let one = ap (λ (r : Option E × ℕ). r.1) (round (suc n) i last (w.call i) go refl is) in
          omega (arith, one)
      | inr isnt ↦ elim (Option-cases (w.done_waiting i)) [
        | inl further ↦
            let more =
              ap (λ (r : Option E × ℕ). r.1) (retried n i last (w.call i) go further refl isnt) in
            omega (arith, more, loop-bounded (suc n) (suc i) (w.call i))
        | inr stop ↦
            let one =
              ap (λ (r : Option E × ℕ). r.1)
                (interrupted n i stop.0 last (w.call i) go stop.1 refl isnt) in
            omega (arith, one)
      ]
    ]
  ]

  -- Execute ends after at most MaxRetries + 1 calls, and where MaxRetries is negative without any call
  -- and without an error, whatever the context and the calls do.
  pub execute-bounded :
      ((m : ℕ) → p.max_retries ≡ pos m → (execute p w).1 ≤ m + 1)
      × ((m : ℕ) → p.max_retries ≡ negsuc m → execute p w ≡ (none, 0))
  unfolding execute rounds_of loop
  execute-bounded = (
    λ m e.
        (let bound = loop-bounded (suc m) 0 none in
          let same = ap (λ (r : ℤ). (loop p w (rounds_of r) 0 none).1) e in
          omega (arith, bound, same)),
    λ m e. ap (λ (r : ℤ). loop p w (rounds_of r) 0 none) e,
  )

  -- Where the context is not done, Execute ends with the first call that succeeds or fails for good,
  -- or else with the last of MaxRetries + 1 calls, and returns what this call returned.
  pub execute-ending :
      (m : ℕ)
      → p.max_retries ≡ pos m
      → ((j : ℕ) → w.done_before j ≡ none)
      → ((j : ℕ) → w.done_waiting j ≡ none)
      → execute p w ≡ (w.call (ending m 0), suc (ending m 0))
  unfolding execute rounds_of
  execute-ending m e before waiting =
      ap (λ (r : ℤ). loop p w (rounds_of r) 0 none) e ∙ loop-ending m 0 none before waiting
