-- ===== src/Retry/Examples.antt =====
-- Retries at concrete attempts.
use pre_code.Common.{◌+◌, ℕ, suc, ◌≤◌, ◌≡◌, refl, none, some, ltb, if◌then◌else◌}
use pre_code.Retry.{Policy, Attempts, pos, negsuc, execute}
use pre_code.Retry.Rounds.{ending, execute-ending, execute-bounded}

abbrev three_retries : Policy ℕ
three_retries = record { max_retries = pos 3; retryable_fn = none }

-- Two calls fail, with 7 and 8.
abbrev flaky : Attempts ℕ
flaky = record {
  done_before = λ i. none;
  call = λ i. if ltb i 2 then some (7 + i) else none;
  done_waiting = λ i. none;
}

execute-ending_example :
    execute three_retries flaky
    ≡ (flaky.call (ending three_retries flaky 3 0), suc (ending three_retries flaky 3 0))
execute-ending_example = execute-ending three_retries flaky 3 refl (λ j. refl) (λ j. refl)

third_call : execute three_retries flaky ≡ (none, 3)
unfolding execute
third_call = refl

execute-bounded_example :
    ((m : ℕ) → pos 3 ≡ pos m → (execute three_retries flaky).1 ≤ m + 1)
    × ((m : ℕ) → pos 3 ≡ negsuc m → execute three_retries flaky ≡ (none, 0))
execute-bounded_example = execute-bounded three_retries flaky

-- A negative maximum reports success without any call.
no_call : execute (record { max_retries = negsuc 0; retryable_fn = none }) flaky ≡ (none, 0)
unfolding execute
no_call = refl
