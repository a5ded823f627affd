-- ===== src/RateLimit.antt =====
-- The rate limiter with its three algorithms (internal/ratelimit/ratelimit.go), and the sliding
-- window per endpoint (internal/rateguard/rateguard.go). The mutex makes each call one step.
-- Times and durations are nanoseconds since Go's zero time; `t.After(now.Add(-w))` reads
-- `now < t + w`. A token of the token bucket, a float in the source, is counted in units of
-- 1/window: its refill `elapsed * limit / window` is then exact, and rounding is not modelled.
pub mod Sliding
pub mod Tokens
pub mod Tiered
pub mod Cleanup
pub mod Endpoint
mod Examples
use pre_code.Common.{
  ℕ, suc, ◌+◌, ◌-◌, ◌*◌, ◌%◌, Bool, true, false, Option, none, some, List, [], ◌∷◌, ◌++◌, String,
  Dict, lookup, insert, erase, retain, keep, length, ltb, leb, ◌==◌, if◌then◌else◌,
}

pub data Algorithm : Type 0 where
  sliding_window token_bucket fixed_window : Algorithm

pub record WindowBucket : Type 0 where
  pub requests : List ℕ
  pub token_count : ℕ
  pub last_refill : ℕ

-- A negative limit or window acts as 0 where it is compared.
pub record Limiter : Type 0 where
  pub algorithm : Algorithm
  pub limit : ℕ
  pub window : ℕ
  pub buckets : Dict WindowBucket

unfoldable pub new_limiter : Algorithm → ℕ → ℕ → Limiter
new_limiter algorithm limit window = record {
  algorithm = algorithm;
  limit = limit;
  window = window;
  buckets = [];
}

-- The loop over the time stamps that both packages have: those in the window stay, and the new one
-- joins them if there is room.
unfoldable pub slide : ℕ → ℕ → ℕ → List ℕ → List ℕ × Bool
slide limit window now requests =
    let valid = keep (λ t. ltb now (t + window)) requests in
    if leb limit (length valid) then (valid, false) else (valid ++ now ∷ [], true)

unfoldable pub allow_sliding_window : ℕ → ℕ → ℕ → WindowBucket → WindowBucket × Bool
unfolding slide
allow_sliding_window limit window now b =
    let (requests, allowed) = slide limit window now b.requests in
    (record b { requests = requests }, allowed)

abbrev capped : ℕ → ℕ → ℕ
capped top n = if ltb top n then top else n

-- One token is `window` units.
unfoldable pub allow_token_bucket : ℕ → ℕ → ℕ → WindowBucket → WindowBucket × Bool
allow_token_bucket limit window now b =
    let filled = capped (limit * window) (b.token_count + (now - b.last_refill) * limit) in
    if ltb filled window
    then (record b { token_count = filled; last_refill = now }, false)
    else (record b { token_count = filled - window; last_refill = now }, true)

-- `now.Truncate(window)`.
abbrev pub truncate : ℕ → ℕ → ℕ
truncate now window = if window == 0 then now else now - now % window

unfoldable pub allow_fixed_window : ℕ → ℕ → ℕ → WindowBucket → WindowBucket × Bool
allow_fixed_window limit window now b =
    let window_start = truncate now window in
    let b' =
      if ltb b.last_refill window_start
      then record b { token_count = 0; last_refill = window_start }
      else b in
    if leb limit b'.token_count
    then (b', false)
    else (record b' { token_count = b'.token_count + 1 }, true)

init_tokens : Algorithm → ℕ → ℕ → ℕ
init_tokens token_bucket limit window = limit * window
init_tokens _ limit window = 0

bucket_or_new : Limiter → ℕ → Option WindowBucket → WindowBucket
unfolding init_tokens
bucket_or_new l now none = record {
  requests = [];
  token_count = init_tokens l.algorithm l.limit l.window;
  last_refill = now;
}
bucket_or_new l now (some b) = b

-- `getOrCreateBucket`; the new bucket is stored with the result of the call.
unfoldable pub get_or_create_bucket : String → ℕ → Limiter → WindowBucket
unfolding bucket_or_new
get_or_create_bucket key now l = bucket_or_new l now (lookup key l.buckets)

unfoldable pub allow_bucket : Algorithm → ℕ → ℕ → ℕ → WindowBucket → WindowBucket × Bool
unfolding allow_sliding_window allow_token_bucket allow_fixed_window
allow_bucket sliding_window limit window now b = allow_sliding_window limit window now b
allow_bucket token_bucket limit window now b = allow_token_bucket limit window now b
allow_bucket fixed_window limit window now b = allow_fixed_window limit window now b

unfoldable pub allow_key : String → ℕ → Limiter → Limiter × Bool
unfolding get_or_create_bucket allow_bucket
allow_key key now l =
    let (b, allowed) =
      allow_bucket l.algorithm l.limit l.window now (get_or_create_bucket key now l) in
    (record l { buckets = insert key b l.buckets }, allowed)

unfoldable pub allow : ℕ → Limiter → Limiter × Bool
unfolding allow_key
allow now l = allow_key "global" now l

abbrev pub hour : ℕ
hour = 3600000000000

-- One tick of `cleanup`.
unfoldable pub cleanup : ℕ → Limiter → Limiter
cleanup now l = record l { buckets = retain (λ k b. leb now (b.last_refill + hour)) l.buckets }

unfoldable pub reset : Limiter → Limiter
reset l = record l { buckets = [] }

unfoldable pub reset_key : String → Limiter → Limiter
reset_key key l = record l { buckets = erase key l.buckets }
