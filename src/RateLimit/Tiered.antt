-- ===== src/RateLimit/Tiered.antt =====
-- The limiter by plan (internal/ratelimit/tiered.go). Times are in nanoseconds. A token is 86400 units, so
-- that what is refilled in whole seconds is a whole number; the rounding of the floats is left out.
pub mod Rate
use pre_code.Common.{
  ℕ, suc, ◌+◌, ◌-◌, ◌*◌, ◌/◌, ◌≤◌, ◌≡◌, refl, ap, Bool, true, false, not, ◌&&◌, ◌||◌, Option, none,
  some, List, [], ◌∷◌, String, str_eq, ltb, ◌==◌, if◌then◌else◌, arith, Bool-cases, inl, inr, Dict,
  lookup, insert, retain,
}

pub record Tier : Type 0 where
  pub requests_per_minute : ℕ
  pub requests_per_hour : ℕ
  pub requests_per_day : ℕ

abbrev pub free_tier : Tier
free_tier = record { requests_per_minute = 30; requests_per_hour = 500; requests_per_day = 5000 }

abbrev pub pro_tier : Tier
pro_tier = record { requests_per_minute = 120; requests_per_hour = 5000; requests_per_day = 50000 }

abbrev pub team_tier : Tier
team_tier = record {
  requests_per_minute = 600;
  requests_per_hour = 20000;
  requests_per_day = 200000;
}

unfoldable pub get_tier : String → Tier
get_tier plan =
    if str_eq plan "pro"
    then pro_tier
    else if str_eq plan "team" || str_eq plan "enterprise"
    then team_tier
    else free_tier

unfoldable pub same_tier : Tier → Tier → Bool
same_tier s t =
    (s.requests_per_minute == t.requests_per_minute)
    && ((s.requests_per_hour == t.requests_per_hour) && (s.requests_per_day == t.requests_per_day))

pub record TokenBucket : Type 0 where
  pub minute_tokens : ℕ
  pub hour_tokens : ℕ
  pub day_tokens : ℕ
  pub last_refill : ℕ
  pub tier : Tier

abbrev pub unit : ℕ
unit = 86400

abbrev pub second : ℕ
second = 1000000000

unfoldable pub full_bucket : ℕ → Tier → TokenBucket
full_bucket now tier = record {
  minute_tokens = tier.requests_per_minute * unit;
  hour_tokens = tier.requests_per_hour * unit;
  day_tokens = tier.requests_per_day * unit;
  last_refill = now;
  tier = tier;
}

-- What is there for the key, or a new bucket; a bucket of another tier starts again.
unfoldable pub bucket_of : ℕ → Tier → Option TokenBucket → TokenBucket
unfolding full_bucket same_tier
bucket_of now tier none = full_bucket now tier
bucket_of now tier (some b) = if same_tier b.tier tier then b else full_bucket now tier

unfoldable pub refilled : ℕ → ℕ → ℕ
refilled limit tokens = if ltb (limit * unit) tokens then limit * unit else tokens

-- `elapsed.Truncate(time.Second)` in seconds, a limit in 60, 3600 and 86400 of them.
unfoldable pub refill : ℕ → Tier → TokenBucket → TokenBucket
unfolding refilled
refill now tier b =
    let seconds = (now - b.last_refill) / second in
    if ltb (now - b.last_refill) second then b else record b {
      minute_tokens =
          refilled tier.requests_per_minute
            (b.minute_tokens + seconds * (1440 * tier.requests_per_minute));
      hour_tokens =
          refilled tier.requests_per_hour (b.hour_tokens + seconds * (24 * tier.requests_per_hour));
      day_tokens = refilled tier.requests_per_day (b.day_tokens + seconds * tier.requests_per_day);
      last_refill = now;
    }

unfoldable pub is_short : TokenBucket → Bool
is_short b = ltb b.minute_tokens unit || (ltb b.hour_tokens unit || ltb b.day_tokens unit)

unfoldable pub spent : TokenBucket → TokenBucket
spent b = record b {
  minute_tokens = b.minute_tokens - unit;
  hour_tokens = b.hour_tokens - unit;
  day_tokens = b.day_tokens - unit;
}

-- Whether the bucket lets the request through.
unfoldable pub take : TokenBucket → TokenBucket × Bool
unfolding is_short spent
take b = if is_short b then (b, false) else (spent b, true)

unfoldable pub take_at : ℕ → Tier → TokenBucket → TokenBucket × Bool
unfolding take refill
take_at now tier b = take (refill now tier b)

-- `Middleware`: whether the handler is called.
unfoldable pub middleware : ℕ → String → Tier → Dict TokenBucket → Bool × Dict TokenBucket
unfolding take_at bucket_of
middleware now key tier buckets =
    let p = take_at now tier (bucket_of now tier (lookup key buckets)) in
    (p.1, insert key p.0 buckets)

-- A tick of `cleanup`.
unfoldable pub cleanup : ℕ → Dict TokenBucket → Dict TokenBucket
cleanup now = retain (λ k b. not (ltb (3600 * second) (now - b.last_refill)))
