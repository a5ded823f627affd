-- ===== src/RateLimit/Examples.antt =====
-- The rate limiters at concrete calls, and their theorems there.
use pre_code.Common.{
  retain, ℕ, ◌+◌, ◌-◌, ◌*◌, ◌≤◌, ◌≡◌, refl, [], ◌∷◌, ◌++◌, lookup, keep, length, count_if, ltb,
  if◌then◌else◌, arith, List, Dict, true, false, insert,
}
use pre_code.RateLimit.Tiered
use pre_code.RateLimit.Tiered.{Tier, TokenBucket, unit, second, full_bucket, free_tier}
use pre_code.RateLimit.Tiered.Rate
use pre_code.RateLimit.Tiered.Rate.{takes-capped}
use pre_code.RateLimit.{Limiter, sliding_window}
use pre_code.RateLimit.Sliding.{slides, within, latest, slides_capped}
use pre_code.RateLimit.Endpoint.{EndpointRule, EndpointLimiter, stamps_of, allow, allow_exact}

abbrev calls : List ℕ
calls = 1 ∷ 2 ∷ 3 ∷ 11 ∷ 12 ∷ []

slides_capped_example : count_if (within 10 12) (slides 2 10 calls ([], [])).1 ≤ 2
slides_capped_example = slides_capped 2 10 calls 12 (ground arith)

abbrev limiter : Limiter
limiter = record {
  algorithm = sliding_window;
  limit = 2;
  window = 10;
  buckets = ("ann", record { requests = 7 ∷ []; token_count = 0; last_refill = 0 }) ∷ [];
}

abbrev later : ℕ
later = 3600000000001

abbrev before_login : EndpointRule
before_login = record { pattern = "/"; limit = 9; window = 10; burst = 0 }

abbrev login : EndpointRule
login = record { pattern = "/login"; limit = 1; window = 10; burst = 1 }

abbrev endpoints : EndpointLimiter
endpoints = record {
  config = record { rules = before_login ∷ login ∷ []; default_limit = 5; default_window = 10 };
  windows = ("ann", 1 ∷ 8 ∷ []) ∷ [];
}

allow_exact_example :
    let live = keep (λ t. ltb 12 (t + 10)) (stamps_of "ann" endpoints) in
    let (el', allowed) = allow "ann" "/login" 12 endpoints in
    (allowed ≡ ltb (length live) (1 + 1))
    × (stamps_of "ann" el' ≡ (if allowed then live ++ 12 ∷ [] else live))
allow_exact_example =
    allow_exact "ann" "/login" 12 endpoints (before_login ∷ []) [] login refl (refl, tt) refl

abbrev small_tier : Tier
small_tier = record { requests_per_minute = 2; requests_per_hour = 3; requests_per_day = 3 }

abbrev asked : List ℕ
asked = 0 ∷ 1 ∷ 2 ∷ 60000000000 ∷ 60000000001 ∷ []

takes-capped_example :
    (let n = (Rate.takes small_tier asked (full_bucket 0 small_tier)).0 in
      let elapsed = latest 0 asked - 0 in
      (n * unit * second ≤ 2 * unit * second + elapsed * (1440 * 2))
      × (n * unit * second ≤ 3 * unit * second + elapsed * (24 * 3))
      × (n * unit * second ≤ 3 * unit * second + elapsed * 3))
takes-capped_example =
    takes-capped small_tier asked 0
      (omega arith, (omega arith, (omega arith, (omega arith, (omega arith, tt)))))

-- Two at once, a third after a minute; then the day is used up.
three_taken : (Rate.takes small_tier asked (full_bucket 0 small_tier)).0 ≡ 3
unfolding Rate.takes Tiered.take_at full_bucket
three_taken = refl

abbrev used_up : Dict TokenBucket
used_up = ("k", record (full_bucket 0 small_tier) { day_tokens = 0 }) ∷ []

-- The day's tokens are used up, and after an idle hour a tick of cleanup forgets it.
day_forgotten :
    ((Tiered.middleware 3601000000000 "k" small_tier used_up).0 ≡ false)
    × ((Tiered.middleware 3601000000000 "k" small_tier (Tiered.cleanup 3601000000000 used_up)).0
        ≡ true)
unfolding Tiered.middleware lookup Tiered.cleanup retain
day_forgotten = (refl, refl)

-- Another tier, and back: the bucket is full again.
tier_refills :
    (let p = Tiered.middleware 1 "k" free_tier used_up in
      (Tiered.middleware 2 "k" small_tier p.1).0)
    ≡ true
unfolding Tiered.middleware lookup insert
tier_refills = refl
