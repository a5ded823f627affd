-- ===== src/RateLimit/Tiered/Rate.antt =====
-- A tier's three rates bound what its bucket lets through.
use native.Mathlib.Nat.{mul-le-mul_right}
use pre_code.Common.{
  ℕ, suc, ◌+◌, ◌-◌, ◌*◌, ◌/◌, ◌≤◌, ◌≡◌, refl, ap, List, [], ◌∷◌, ltb, if◌then◌else◌, arith,
  Bool-cases, inl, inr,
}
use pre_code.RateLimit.Sliding.{IsClock, latest}
use pre_code.RateLimit.Tokens.{latest-le}
use pre_code.RateLimit.Tiered.{
  Tier, TokenBucket, unit, second, full_bucket, refilled, refill, is_short, spent, take, take_at,
}

module _ (tier : Tier) where
  -- How many requests of one key at these times are let through, and the bucket behind them.
  unfoldable pub takes : List ℕ → TokenBucket → ℕ × TokenBucket
  takes [] b = (0, b)
  takes (now ∷ ts) b =
      let p = take_at now tier b in let q = takes ts p.0 in (if p.1 then suc q.0 else q.0, q.1)

  refilled-le : (limit x : ℕ) → refilled limit x ≤ x
  unfolding refilled
  refilled-le limit x = ground arith

  -- What whole seconds of a time bring.
  gained : (d rate : ℕ) → d / second * rate * second ≤ d * rate
  gained d rate =
      let whole : d / second * second ≤ d = omega arith in
      let scaled = mul-le-mul_right rate whole in omega (arith, scaled)

  refilled-gains :
      (limit tokens rate d : ℕ)
      → refilled limit (tokens + d / second * rate) * second ≤ tokens * second + d * rate
  refilled-gains limit tokens rate d =
      let least = mul-le-mul_right second (refilled-le limit (tokens + d / second * rate)) in
      let more = gained d rate in omega (arith, least, more)

  -- A kind of tokens, and what a second brings of it.
  module _ (tokens : TokenBucket → ℕ) (rate : ℕ)
      (refills : (now : ℕ) (b : TokenBucket)
        → b.last_refill ≤ now
        → (tokens (refill now tier b) * second + (now - (refill now tier b).last_refill) * rate
            ≤ tokens b * second + (now - b.last_refill) * rate)
          × ((refill now tier b).last_refill ≤ now))
      (spends : (b : TokenBucket)
        → ((if (take b).1 then unit else 0) + tokens (take b).0 ≤ tokens b)
          × ((take b).0.last_refill ≡ b.last_refill)) where
    -- Up to a later time.
    step-Spends :
        (now end_at : ℕ) (b : TokenBucket)
        → b.last_refill ≤ now
        → now ≤ end_at
        → (let p = take_at now tier b in
            (tokens p.0 * second
                + (if p.1 then unit else 0) * second
                + (end_at - p.0.last_refill) * rate
              ≤ tokens b * second + (end_at - b.last_refill) * rate)
            × (p.0.last_refill ≤ now))
    unfolding take_at
    step-Spends now end_at b l m =
        let r : TokenBucket = refill now tier b in
        let p = take r in
        let refilling = refills now b l in
        let spending = spends r in
        let before : end_at - r.last_refill ≡ (end_at - now) + (now - r.last_refill) =
          omega (arith, m, refilling.1) in
        let after : end_at - b.last_refill ≡ (end_at - now) + (now - b.last_refill) =
          omega (arith, l, m) in
        let whole = mul-le-mul_right second spending.0 in
        let times_before = ap (λ (x : ℕ). x * rate) before in
        let times_after = ap (λ (x : ℕ). x * rate) after in
        let same = ap (λ (x : ℕ). (end_at - x) * rate) spending.1 in
        (
          omega (arith, refilling.0, whole, times_before, times_after, same),
          omega (arith, spending.1, refilling.1),
        )

    takes-Spends :
        (ts : List ℕ) (b : TokenBucket) (last : ℕ)
        → b.last_refill ≤ last
        → IsClock last ts
        → (takes ts b).0 * unit * second + tokens (takes ts b).1 * second
          ≤ tokens b * second + (latest last ts - b.last_refill) * rate
    unfolding takes
    takes-Spends [] b last l c = omega arith
    takes-Spends (now ∷ ts) b last l c =
        let p = take_at now tier b in
        let step =
          step-Spends now (latest now ts) b (omega (arith, l, c.0)) (latest-le 0 0 now ts c.1) in
        let rest = takes-Spends ts p.0 now step.1 c.1 in
        elim (Bool-cases p.1) [
          | inl is ↦
              let paid : (if p.1 then unit else 0) ≡ unit = rw is refl in
              let scaled = ap (λ (x : ℕ). x * second) paid in
              rw is (omega (arith, step.0, scaled, rest))
          | inr isnt ↦
              let paid : (if p.1 then unit else 0) ≡ 0 = rw isnt refl in
              let scaled = ap (λ (x : ℕ). x * second) paid in
              rw isnt (omega (arith, step.0, scaled, rest))
        ]

  no_time : (now rate : ℕ) → (now - now) * rate ≡ 0
  no_time now rate =
      let none_left : now - now ≡ 0 = omega arith in
      let scaled = ap (λ (x : ℕ). x * rate) none_left in omega (arith, scaled)

  minute-refills :
      (now : ℕ) (b : TokenBucket)
      → b.last_refill ≤ now
      → ((refill now tier b).minute_tokens * second
            + (now - (refill now tier b).last_refill) * (1440 * tier.requests_per_minute)
          ≤ b.minute_tokens * second + (now - b.last_refill) * (1440 * tier.requests_per_minute))
        × ((refill now tier b).last_refill ≤ now)
  unfolding refill
  minute-refills now b l = elim (Bool-cases (ltb (now - b.last_refill) 1000000000)) [
    | inl soon ↦ rw soon (omega arith, l)
    | inr later ↦
        let gains =
          refilled-gains tier.requests_per_minute b.minute_tokens (1440 * tier.requests_per_minute)
            (now - b.last_refill) in
        rw later (omega (arith, gains, no_time now (1440 * tier.requests_per_minute)), omega arith)
  ]

  minute-spends :
      (b : TokenBucket)
      → ((if (take b).1 then unit else 0) + (take b).0.minute_tokens ≤ b.minute_tokens)
        × ((take b).0.last_refill ≡ b.last_refill)
  unfolding take is_short spent
  minute-spends b = ground arith

  hour-refills :
      (now : ℕ) (b : TokenBucket)
      → b.last_refill ≤ now
      → ((refill now tier b).hour_tokens * second
            + (now - (refill now tier b).last_refill) * (24 * tier.requests_per_hour)
          ≤ b.hour_tokens * second + (now - b.last_refill) * (24 * tier.requests_per_hour))
        × ((refill now tier b).last_refill ≤ now)
  unfolding refill
  hour-refills now b l = elim (Bool-cases (ltb (now - b.last_refill) 1000000000)) [
    | inl soon ↦ rw soon (omega arith, l)
    | inr later ↦
        let gains =
          refilled-gains tier.requests_per_hour b.hour_tokens (24 * tier.requests_per_hour)
            (now - b.last_refill) in
        rw later (omega (arith, gains, no_time now (24 * tier.requests_per_hour)), omega arith)
  ]

  hour-spends :
      (b : TokenBucket)
      → ((if (take b).1 then unit else 0) + (take b).0.hour_tokens ≤ b.hour_tokens)
        × ((take b).0.last_refill ≡ b.last_refill)
  unfolding take is_short spent
  hour-spends b = ground arith

  day-refills :
      (now : ℕ) (b : TokenBucket)
      → b.last_refill ≤ now
      → ((refill now tier b).day_tokens * second
            + (now - (refill now tier b).last_refill) * (tier.requests_per_day)
          ≤ b.day_tokens * second + (now - b.last_refill) * (tier.requests_per_day))
        × ((refill now tier b).last_refill ≤ now)
  unfolding refill
  day-refills now b l = elim (Bool-cases (ltb (now - b.last_refill) 1000000000)) [
    | inl soon ↦ rw soon (omega arith, l)
    | inr later ↦
        let gains =
          refilled-gains tier.requests_per_day b.day_tokens (tier.requests_per_day)
            (now - b.last_refill) in
        rw later (omega (arith, gains, no_time now tier.requests_per_day), omega arith)
  ]

  day-spends :
      (b : TokenBucket)
      → ((if (take b).1 then unit else 0) + (take b).0.day_tokens ≤ b.day_tokens)
        × ((take b).0.last_refill ≡ b.last_refill)
  unfolding take is_short spent
  day-spends b = ground arith

  -- A new bucket of a tier, asked at any times from `start` on of a clock that does not go back, lets
  -- through at most as many requests as the tier has for a minute, an hour and a day, and those
  -- that are refilled at these rates up to the last request.
  pub takes-capped :
      (ts : List ℕ) (start : ℕ)
      → IsClock start ts
      → (let n = (takes ts (full_bucket start tier)).0 in
          let elapsed = latest start ts - start in
          (n * unit * second
            ≤ tier.requests_per_minute * unit * second
              + elapsed * (1440 * tier.requests_per_minute))
          × (n * unit * second
              ≤ tier.requests_per_hour * unit * second + elapsed * (24 * tier.requests_per_hour))
          × (n * unit * second
              ≤ tier.requests_per_day * unit * second + elapsed * tier.requests_per_day))
  unfolding full_bucket
  takes-capped ts start c =
      let b : TokenBucket = full_bucket start tier in
      let by_minute =
        takes-Spends (λ (x : TokenBucket). x.minute_tokens) (1440 * tier.requests_per_minute)
          minute-refills minute-spends ts b start (omega arith) c in
      let by_hour =
        takes-Spends (λ (x : TokenBucket). x.hour_tokens) (24 * tier.requests_per_hour) hour-refills
          hour-spends ts b start (omega arith) c in
      let by_day =
        takes-Spends (λ (x : TokenBucket). x.day_tokens) tier.requests_per_day day-refills
          day-spends ts b start (omega arith) c in
      (omega (arith, by_minute), omega (arith, by_hour), omega (arith, by_day))
