-- ===== src/Breaker/Invariant.antt =====
-- What holds of the breaker after every interleaving of critical sections.
use pre_code.Common.{ℕ, ◌≤◌, ◌<◌, ◌≡◌, Bool, some, List, [], ◌∷◌, arith}
use pre_code.Breaker.{
  closed, opened, half_open, circuit_open, System, Event, calls, finishes, resets, begin, settle,
  step, run, start,
}

-- The threshold has been met unless the circuit is closed; in half-open the one probe is taken and
-- some call is still running.
pub record Inv (s : System) : Type 0 where
  pub met_opened : s.breaker.state ≡ opened → s.breaker.threshold ≤ s.breaker.fail_count
  pub met_half_open : s.breaker.state ≡ half_open → s.breaker.threshold ≤ s.breaker.fail_count
  pub probe_taken : s.breaker.state ≡ half_open → s.breaker.half_open_probes ≡ 1
  pub probe_running : s.breaker.state ≡ half_open → 0 < s.in_flight
  pub one_probe : s.breaker.half_open_probes ≤ 1

start-Inv : (threshold timeout : ℕ) → Inv (start threshold timeout)
unfolding start
start-Inv threshold timeout = ground arith

step-Inv : (s : System) (e : Event) → Inv s → Inv (step s e)
unfolding step
step-Inv s (calls now) h = ground arith
step-Inv s (finishes failed now) h = ground arith
step-Inv s resets h = ground arith

run-Inv_from : (s : System) (es : List Event) → Inv s → Inv (run s es)
unfolding run
run-Inv_from s [] h = h
run-Inv_from s (e ∷ es) h = run-Inv_from (step s e) es (step-Inv s e h)

-- After any interleaving of calls, completions and resets of a new breaker: an open or half-open
-- circuit has met its threshold; in half-open exactly one probe was granted and a call is running;
-- and there is never more than one probe.
pub run-Inv : (threshold timeout : ℕ) (es : List Event) → Inv (run (start threshold timeout) es)
run-Inv threshold timeout es = run-Inv_from _ es (start-Inv threshold timeout)

-- In half-open, once its invariant holds, every further call is refused whenever it comes and
-- changes nothing, and the next call to finish, whichever it is, leaves half-open: a failure opens
-- the circuit again and a success closes it with no failures counted.
pub half_open_lem :
    (s : System) (now : ℕ)
    → Inv s
    → s.breaker.state ≡ half_open
    → (begin now s.breaker ≡ (s.breaker, some circuit_open))
      × ((settle Bool.true now s.breaker).state ≡ opened)
      × ((settle Bool.false now s.breaker).state ≡ closed)
      × ((settle Bool.false now s.breaker).fail_count ≡ 0)
unfolding begin settle
half_open_lem s now h e = ground arith
