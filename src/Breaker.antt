-- ===== src/Breaker.antt =====
-- The circuit breaker around an LLM provider (internal/llm/circuit_breaker.go). `Execute` holds the
-- lock twice, before and after the call of `fn`: `begin` and `settle` are the two critical sections,
-- and a run of the program is a list of them in the order in which they take the lock.
-- Times and durations are nanoseconds; `time.Since(t) > d` reads `t + d < now`.
pub mod Invariant
pub mod Recovery
mod Examples
use pre_code.Common.{
  ℕ, zero, suc, ◌+◌, ◌-◌, Bool, true, false, Option, none, some, List, [], ◌∷◌, ltb, leb, ◌==◌,
  if◌then◌else◌,
}

pub data CircuitState : Type 0 where
  closed opened half_open : CircuitState

pub data Err : Type 0 where
  circuit_open call_failed : Err

-- A negative threshold acts as 0: it is compared with a count that is at least 1.
pub record CircuitBreaker : Type 0 where
  pub state : CircuitState
  pub fail_count : ℕ
  pub success_count : ℕ
  pub last_failure : ℕ
  pub threshold : ℕ
  pub timeout : ℕ
  pub half_open_probes : ℕ

unfoldable pub new : ℕ → ℕ → CircuitBreaker
new threshold timeout = record {
  state = closed;
  fail_count = 0;
  success_count = 0;
  last_failure = 0;
  threshold = threshold;
  timeout = timeout;
  half_open_probes = 0;
}

-- `if cb.state == CircuitOpen { … }`: the flag says that the call is refused.
reopen : CircuitState → ℕ → CircuitBreaker → CircuitBreaker × Bool
reopen opened now cb =
    if ltb (cb.last_failure + cb.timeout) now
    then (record cb { state = half_open; half_open_probes = 0 }, false)
    else (cb, true)
reopen _ now cb = (cb, false)

-- `if cb.state == CircuitHalfOpen { … CompareAndSwap(0, 1) … }`.
take_probe : CircuitState → CircuitBreaker → CircuitBreaker × Option Err
take_probe half_open cb =
    if cb.half_open_probes == 0
    then (record cb { half_open_probes = 1 }, none)
    else (cb, some circuit_open)
take_probe _ cb = (cb, none)

-- The first critical section; `none` lets the call of `fn` through.
unfoldable pub begin : ℕ → CircuitBreaker → CircuitBreaker × Option Err
unfolding reopen take_probe
begin now cb =
    let (cb', refused) = reopen cb.state now cb in
    if refused then (cb', some circuit_open) else take_probe cb'.state cb'

close_half_open : CircuitState → CircuitBreaker → CircuitBreaker
close_half_open half_open cb = record cb { state = closed; fail_count = 0 }
close_half_open _ cb = cb

-- The second critical section; the flag says that `fn` returned an error.
unfoldable pub settle : Bool → ℕ → CircuitBreaker → CircuitBreaker
unfolding close_half_open
settle true now cb =
    let failed = record cb { fail_count = cb.fail_count + 1; last_failure = now } in
    if leb cb.threshold (cb.fail_count + 1) then record failed { state = opened } else failed
settle false now cb = close_half_open cb.state (record cb { success_count = cb.success_count + 1 })

-- `Execute`: what the other goroutines do to the breaker while `fn` runs is `others`.
unfoldable pub execute :
    (CircuitBreaker → CircuitBreaker) → ℕ → ℕ → Bool → CircuitBreaker → CircuitBreaker × Option Err
unfolding begin settle
execute others start finish failed cb =
    let (cb', e) = begin start cb in
    elim e [
      | some err ↦ (cb', some err)
      | none ↦ (settle failed finish (others cb'), if failed then some call_failed else none)
    ]

unfoldable pub is_open : CircuitBreaker → Bool
is_open cb = elim cb.state [ opened ↦ true | _ ↦ false ]

unfoldable pub reset : CircuitBreaker → CircuitBreaker
reset cb = record cb { state = closed; fail_count = 0; success_count = 0 }

-- The breaker with the number of calls of `fn` that are running.
pub record System : Type 0 where
  pub breaker : CircuitBreaker
  pub in_flight : ℕ

pub data Event : Type 0 where
  calls : ℕ → Event
  finishes : Bool → ℕ → Event
  resets : Event

admitted : Option Err → ℕ → ℕ
admitted none n = suc n
admitted (some e) n = n

-- Only a call that runs can finish.
finish_one : ℕ → Bool → ℕ → CircuitBreaker → System
unfolding settle
finish_one zero failed now cb = record { breaker = cb; in_flight = 0 }
finish_one (suc n) failed now cb = record { breaker = settle failed now cb; in_flight = n }

unfoldable pub step : System → Event → System
unfolding begin admitted finish_one reset
step s (calls now) =
    let (cb, e) = begin now s.breaker in record { breaker = cb; in_flight = admitted e s.in_flight }
step s (finishes failed now) = finish_one s.in_flight failed now s.breaker
step s resets = record s { breaker = reset s.breaker }

unfoldable pub run : System → List Event → System
run s [] = s
run s (e ∷ es) = run (step s e) es

unfoldable pub start : ℕ → ℕ → System
unfolding new
start threshold timeout = record { breaker = new threshold timeout; in_flight = 0 }
