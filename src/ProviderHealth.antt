-- ===== src/ProviderHealth.antt =====
-- The health of the LLM providers (internal/llm/health.go). The lock makes each method one step.
-- Durations are nanoseconds. The error rate and the confidence are floats from 0 to 2, numbers of
-- 2^-56 with sums that are rounded (LlmRouter.Float); gauges for dashboards are left out.
pub mod Tracking
mod Examples
use pre_code.LlmRouter.Float.{float_add, round_to, ulp, p10, p20, p30, p50 as p50_float, p100}
use pre_code.Common.{
  ℕ, suc, ◌+◌, ◌-◌, ◌/◌, Bool, true, false, Option, none, some, List, [], ◌∷◌, ◌++◌, String, Dict,
  lookup, insert, length, ltb, leb, if◌then◌else◌, sort_by, get_at,
}

pub data HealthStatus : Type 0 where
  healthy degraded unhealthy down : HealthStatus

pub record ProviderHealth : Type 0 where
  pub status : HealthStatus
  pub error_rate : ℕ
  pub consecutive_fails : ℕ
  pub last_checked : ℕ
  pub latency_p50 : ℕ
  pub latencies : List ℕ

-- The providers of a monitor by name.
abbrev pub HealthMonitor : Type 0
HealthMonitor = Dict ProviderHealth

abbrev pub fresh_health : ProviderHealth
fresh_health = record {
  status = healthy;
  error_rate = 0;
  consecutive_fails = 0;
  last_checked = 0;
  latency_p50 = 0;
  latencies = [];
}

unfoldable pub register_provider : String → HealthMonitor → HealthMonitor
register_provider name h = insert name fresh_health h

unfoldable pub is_usable : HealthStatus → Bool
is_usable healthy = true
is_usable degraded = true
is_usable unhealthy = false
is_usable down = false

-- In the order in which the map is visited.
unfoldable pub get_healthy_providers : HealthMonitor → List String
unfolding is_usable
get_healthy_providers [] = []
get_healthy_providers ((name, health) ∷ h) =
    let rest = get_healthy_providers h in if is_usable health.status then name ∷ rest else rest

-- `a - b` of two floats of which `b` is not above `a`; 0 where it is.
unfoldable pub float_sub : ℕ → ℕ → ℕ
float_sub a b = round_to (a - b) (ulp (a - b))

-- 0.8
abbrev p80 : ℕ
p80 = 57646075230342352

abbrev max : ℕ → ℕ → ℕ
max a b = if ltb a b then b else a

confidence_of : Option ProviderHealth → ℕ
unfolding float_sub
confidence_of none = p50_float
confidence_of (some health) = elim health.status [
  | healthy ↦ max p50_float (float_sub p100 health.error_rate)
  | degraded ↦ max p30 (float_sub p80 health.error_rate)
  | unhealthy ↦ p20
  | down ↦ 0
]

unfoldable pub confidence : String → HealthMonitor → ℕ
unfolding confidence_of
confidence name h = confidence_of (lookup name h)

-- The branch of `RecordFailure` on the failures in a row, which by then are at least one.
status_after : ℕ → HealthStatus → HealthStatus
status_after fails old = if leb 3 fails then down else if leb 1 fails then unhealthy else old

-- `health.ErrorRate` after one more failure.
unfoldable pub more_errors : ℕ → ℕ
unfolding float_add
more_errors rate = let sum = float_add rate p10 in if ltb sum p100 then sum else p100

fail_health : ProviderHealth → ProviderHealth
unfolding status_after more_errors
fail_health health =
    let fails = health.consecutive_fails + 1 in
    record health {
      consecutive_fails = fails;
      error_rate = more_errors health.error_rate;
      status = status_after fails health.status;
    }

failed : String → HealthMonitor → Option ProviderHealth → HealthMonitor
unfolding fail_health
failed name h none = h
failed name h (some health) = insert name (fail_health health) h

unfoldable pub record_failure : String → HealthMonitor → HealthMonitor
unfolding failed
record_failure name h = failed name h (lookup name h)

-- `latencies[1:]` of a list that is too long.
abbrev pub drop_oldest : List ℕ → List ℕ
drop_oldest [] = []
drop_oldest (x ∷ xs) = if ltb 100 (length (x ∷ xs)) then xs else x ∷ xs

or_zero : Option ℕ → ℕ
or_zero none = 0
or_zero (some n) = n

-- The median of the latencies, of which there is one by then.
unfoldable pub p50 : List ℕ → ℕ
unfolding or_zero
p50 latencies = or_zero (get_at (sort_by ltb latencies) (length latencies / 2))

succeed_health : ℕ → ℕ → ProviderHealth → ProviderHealth
unfolding p50
succeed_health now latency health =
    let latencies = drop_oldest (health.latencies ++ latency ∷ []) in
    record health {
      consecutive_fails = 0;
      error_rate = 0;
      last_checked = now;
      latencies = latencies;
      latency_p50 = p50 latencies;
      status = if ltb 0 p10 then healthy else degraded;
    }

succeeded : ℕ → String → ℕ → HealthMonitor → Option ProviderHealth → HealthMonitor
unfolding succeed_health
succeeded now name latency h none = h
succeeded now name latency h (some health) = insert name (succeed_health now latency health) h

unfoldable pub record_success : ℕ → String → ℕ → HealthMonitor → HealthMonitor
unfolding succeeded
record_success now name latency h = succeeded now name latency h (lookup name h)

checked : ℕ → String → Option ℕ → HealthMonitor → HealthMonitor
checked now name none h = record_failure name h
checked now name (some latency) h = record_success now name latency h

-- `CheckHealth`: the provider answers with its latency, or with an error.
unfoldable pub check_health : ℕ → String → Option ℕ → HealthMonitor → HealthMonitor
unfolding checked
check_health now name answer h = checked now name answer h
