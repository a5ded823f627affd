-- ===== src/RateLimit/Tokens.antt =====
-- The token bucket admits a burst of its limit and then its refill rate.
use pre_code.Common.{
  ℕ, suc, ◌+◌, ◌-◌, ◌*◌, ◌≤◌, ◌≡◌, refl, ap, subst, Bool, List, [], ◌∷◌, if◌then◌else◌, arith,
  Bool-cases, inl, inr,
}
use pre_code.RateLimit.{WindowBucket, allow_token_bucket}
use pre_code.RateLimit.Sliding.{IsClock, latest}

module _ (limit window : ℕ) where
  -- How many of the calls at these times are admitted, and the bucket behind them.
  unfoldable pub takes : List ℕ → WindowBucket → ℕ × WindowBucket
  takes [] b = (0, b)
  takes (now ∷ ts) b =
      let (b', allowed) = allow_token_bucket limit window now b in
      let (n, b'') = takes ts b' in (if allowed then suc n else n, b'')

  -- Never more tokens than the limit.
  allow_token_bucket-full :
      (now : ℕ) (b : WindowBucket)
      → (allow_token_bucket limit window now b).0.token_count ≤ limit * window
  unfolding allow_token_bucket
  allow_token_bucket-full now b = ground arith

  -- What one call takes out of the bucket.
  allow_token_bucket-Spends :
      (now : ℕ) (b : WindowBucket)
      → b.last_refill ≤ now
      → let (b', allowed) = allow_token_bucket limit window now b in
        ((if allowed then window else 0) + b'.token_count
          ≤ b.token_count + (now - b.last_refill) * limit)
        × (b'.last_refill ≡ now)
  unfolding allow_token_bucket
  allow_token_bucket-Spends now b l = ground arith

  abbrev Spends : WindowBucket → WindowBucket → ℕ → Bool → Type 0
  Spends b b' now allowed =
      (if allowed then window else 0) + b'.token_count
      ≤ b.token_count + (now - b.last_refill) * limit

  pub latest-le : (last : ℕ) (ts : List ℕ) → IsClock last ts → last ≤ latest last ts
  latest-le last [] c = omega arith
  latest-le last (t ∷ ts) c = omega (arith, latest-le t ts c.1, c.0)

  takes-Spends :
      (ts : List ℕ) (b : WindowBucket) (last : ℕ)
      → b.last_refill ≡ last
      → IsClock last ts
      → let (n, b') = takes ts b in
        n * window + b'.token_count ≤ b.token_count + (latest last ts - last) * limit
  unfolding takes
  takes-Spends [] b last e c = omega arith
  takes-Spends (now ∷ ts) b last e c =
      let (b', allowed) = allow_token_bucket limit window now b in
      let spent = allow_token_bucket-Spends now b (rw e c.0) in
      let rest = takes-Spends ts b' now spent.1 c.1 in
      let split : latest now ts - last ≡ (latest now ts - now) + (now - last) =
        omega (arith, latest-le now ts c.1, c.0) in
      let refill : (now - b.last_refill) * limit ≡ (now - last) * limit = rw e refl in
      let parts = ap (λ (x : ℕ). x * limit) split in
      elim (Bool-cases (allow_token_bucket limit window now b).1) [
        | inl p ↦ rw p (omega (arith, subst (Spends b b' now) p spent.0, rest, refill, parts))
        | inr p ↦ rw p (omega (arith, subst (Spends b b' now) p spent.0, rest, refill, parts))
      ]

  -- A full bucket, called at any times from `last` on of a clock that does not go back, admits at
  -- most `limit` calls and those that are refilled, `limit` in each window, up to the last call:
  -- `n * window ≤ limit * window + elapsed * limit`.
  pub takes_rate :
      (ts : List ℕ) (last : ℕ)
      → IsClock last ts
      → (takes ts (record { requests = []; token_count = limit * window; last_refill = last })).0
          * window
        ≤ limit * window + (latest last ts - last) * limit
  takes_rate ts last c = omega (
    arith,
    takes-Spends ts (record { requests = []; token_count = limit * window; last_refill = last })
        last refl c,
  )
