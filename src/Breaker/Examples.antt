-- ===== src/Breaker/Examples.antt =====
-- The circuit breaker at concrete calls, and its theorems there.
use pre_code.Common.{ℕ, ◌≡◌, refl, Bool, true, false, List, [], ◌∷◌}
use pre_code.Breaker.{
  CircuitBreaker, CircuitState, opened, half_open, System, Event, calls, finishes, step, run, start,
}
use pre_code.Breaker.Invariant.{Inv, run-Inv}

-- A failure opens the circuit, and the call at 100 is the probe.
abbrev probing : List Event
probing = calls 1 ∷ finishes true 2 ∷ calls 100 ∷ []

probing_state : (run (start 1 5) probing).breaker.state ≡ half_open
unfolding run step start
probing_state = refl

run-Inv_example : Inv (run (start 1 5) probing)
run-Inv_example = run-Inv 1 5 probing

-- Two failures with a success between them, before the third.
abbrev two_failures : List (Bool × ℕ × ℕ)
two_failures = (true, 1, 2) ∷ (false, 3, 4) ∷ (true, 5, 6) ∷ []

abbrev broken : CircuitState → ℕ → CircuitBreaker
broken s probes = record {
  state = s;
  fail_count = 3;
  success_count = 0;
  threshold = 3;
  timeout = 10;
  last_failure = 20;
  half_open_probes = probes;
}

abbrev open_breaker : CircuitBreaker
open_breaker = broken opened 0

-- The probe of this breaker has ended in a panic.
abbrev abandoned : System
abandoned = record { breaker = broken half_open 1; in_flight = 0 }
