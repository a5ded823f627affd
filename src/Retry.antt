-- ===== src/Retry.antt =====
-- Retries with a context (internal/retry/retry.go). The context, the called function and the check of an
-- error are parameters; the delay of `ComputeDelay`, which only waits, is left out.
pub mod Rounds
mod Examples
use pre_code.Common.{ℕ, zero, suc, ◌+◌, Bool, not, Option, none, some, if◌then◌else◌}

-- Go's `int`, as far as counting needs it.
pub data ℤ : Type 0 where
  pos negsuc : ℕ → ℤ

pub record Policy (E : Type 0) : Type 0 where
  pub max_retries : ℤ
  pub retryable_fn : Option (E → Bool)

-- What the rounds meet, by their number: the error of a context that is done before the call, the
-- error of the call, and that of a context that is done before the delay is over.
pub record Attempts (E : Type 0) : Type 0 where
  pub done_before : ℕ → Option E
  pub call : ℕ → Option E
  pub done_waiting : ℕ → Option E

-- The rounds of `for i := 0; i <= policy.MaxRetries; i++`.
unfoldable pub rounds_of : ℤ → ℕ
rounds_of (pos n) = suc n
rounds_of (negsuc _) = 0

module _ {E : Type 0} where
  unfoldable pub retryable_by : Option (E → Bool) → E → Bool
  retryable_by none err = Bool.true
  retryable_by (some check) err = check err

  unfoldable pub is_retryable : Policy E → E → Bool
  unfolding retryable_by
  is_retryable p err = retryable_by p.retryable_fn err

  -- With the number of calls. The last argument is `attempt.LastError`.
  unfoldable pub loop : Policy E → Attempts E → ℕ → ℕ → Option E → Option E × ℕ
  unfolding is_retryable
  loop p w zero i last = (last, i)
  loop p w (suc n) i last = elim (w.done_before i) [
    | some err ↦ (some err, i)
    | none ↦ elim (w.call i) [
      | none ↦ (none, suc i)
      | some err ↦ elim (is_retryable p err) [
        | Bool.false ↦ (some err, suc i)
        | Bool.true ↦ elim n [
          | zero ↦ (some err, suc i)
          | suc _ ↦ elim (w.done_waiting i) [
            | some stop ↦ (some stop, suc i)
            | none ↦ loop p w n (suc i) (some err)
          ]
        ]
      ]
    ]
  ]

  unfoldable pub execute : Policy E → Attempts E → Option E × ℕ
  unfolding loop rounds_of
  execute p w = loop p w (rounds_of p.max_retries) 0 none

-- `Stats`, with the wrap-around of `int64` left out: the counters are numbers.
pub record Stats : Type 0 where
  pub total_attempts : ℕ
  pub total_retries : ℕ
  pub total_success : ℕ
  pub total_failures : ℕ

unfoldable pub record_success : ℕ → Stats → Stats
record_success retries s = record s {
  total_attempts = s.total_attempts + (retries + 1);
  total_retries = s.total_retries + retries;
  total_success = s.total_success + 1;
}

unfoldable pub record_failure : ℕ → Stats → Stats
record_failure retries s = record s {
  total_attempts = s.total_attempts + (retries + 1);
  total_retries = s.total_retries + retries;
  total_failures = s.total_failures + 1;
}
