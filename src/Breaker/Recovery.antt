-- ===== src/Breaker/Recovery.antt =====
-- When the circuit opens, and when it can recover.
use pre_code.Common.{
  ℕ, ◌+◌, ◌≤◌, ◌<◌, ◌≡◌, refl, ◌⊎◌, Bool, true, false, none, some, List, [], ◌∷◌, arith, count_if,
  if◌then◌else◌,
}
use pre_code.Breaker.{
  CircuitBreaker, closed, opened, half_open, circuit_open, System, Event, calls, finishes, resets,
  begin, settle, execute, step, run, is_open, reopen, take_probe, close_half_open,
}

-- One caller at a time: each call of `Execute` ends before the next begins. An item says whether
-- `fn` failed, when the call started and when it finished.
unfoldable pub execute_all : List (Bool × ℕ × ℕ) → CircuitBreaker → CircuitBreaker
execute_all [] cb = cb
execute_all ((failed, start, finish) ∷ cs) cb =
    execute_all cs (execute (λ c. c) start finish failed cb).0

abbrev pub failures : List (Bool × ℕ × ℕ) → ℕ
failures = count_if (λ c. c.0)

execute_closed :
    (failed : Bool) (start finish : ℕ) (cb : CircuitBreaker)
    → cb.state ≡ closed
    → (failed ≡ true → cb.fail_count + 1 < cb.threshold)
    → let cb' = (execute (λ c. c) start finish failed cb).0 in
      (cb'.state ≡ closed)
      × (cb'.fail_count ≡ (if failed then cb.fail_count + 1 else cb.fail_count))
      × (cb'.threshold ≡ cb.threshold)
unfolding execute
execute_closed failed start finish cb e h = ground arith

-- Failures are counted over the life of a closed circuit: successes between them do not reset the
-- count. While the failures so far and those of the list stay below the threshold the circuit
-- stays closed with exactly that count, and the failure that reaches the threshold opens it.
pub execute_all_trips :
    (cs : List (Bool × ℕ × ℕ)) (start finish : ℕ) (cb : CircuitBreaker)
    → cb.state ≡ closed
    → cb.fail_count + failures cs + 1 ≡ cb.threshold
    → let cb' = execute_all cs cb in
      (cb'.state ≡ closed)
      × (cb'.fail_count ≡ cb.fail_count + failures cs)
      × ((execute (λ c. c) start finish true cb').0.state ≡ opened)
unfolding execute_all
execute_all_trips [] start finish cb e h = unfold execute in ground arith
execute_all_trips ((true, s, f) ∷ cs) start finish cb e h =
    let k = execute_closed true s f cb e (λ _. omega arith) in
    ground (arith, k, execute_all_trips cs start finish (execute (λ c. c) s f true cb).0 k.0)
execute_all_trips ((false, s, f) ∷ cs) start finish cb e h =
    let k = execute_closed false s f cb e (λ x. cc) in
    ground (arith, k, execute_all_trips cs start finish (execute (λ c. c) s f false cb).0 k.0)

-- A circuit that is open refuses every call until more than its timeout has passed since the last
-- failure, and lets the first call after that through as the probe, in half-open.
pub opened-begin :
    (cb : CircuitBreaker) (now : ℕ)
    → cb.state ≡ opened
    → ((now ≤ cb.last_failure + cb.timeout) × (begin now cb ≡ (cb, some circuit_open)))
      ⊎ ((cb.last_failure + cb.timeout < now)
          × (begin now cb ≡ (record cb { state = half_open; half_open_probes = 1 }, none)))
unfolding begin
opened-begin cb now e = ground arith

abbrev is_reset : Event → Bool
is_reset resets = true
is_reset _ = false

-- A half-open circuit whose probe is taken but of which no call runs any more, as after a panic of
-- `fn`, is stuck: no calls at any times, nor any completions, change it; only a reset does.
pub half_open_stuck :
    (s : System) (es : List Event)
    → s.breaker.state ≡ half_open
    → s.breaker.half_open_probes ≡ 1
    → s.in_flight ≡ 0
    → count_if is_reset es ≡ 0
    → run s es ≡ s
unfolding run step
half_open_stuck s [] e p n h = refl
half_open_stuck s (calls now ∷ es) e p n h =
    let same : step s (calls now) ≡ s = ground arith in rw same (half_open_stuck s es e p n h)
half_open_stuck s (finishes failed now ∷ es) e p n h =
    let same : step s (finishes failed now) ≡ s = ground arith in
    rw same (half_open_stuck s es e p n h)
half_open_stuck s (resets ∷ es) e p n h = absurd (omega arith)

-- A call that succeeds does not open a circuit that is not open.
pub execute-not_open :
    (start finish : ℕ) (cb : CircuitBreaker)
    → is_open cb ≡ false
    → is_open (execute (λ c. c) start finish false cb).0 ≡ false
unfolding execute begin settle is_open reopen take_probe close_half_open
execute-not_open start finish cb h = ground (arith, h)
