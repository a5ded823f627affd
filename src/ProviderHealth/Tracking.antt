-- ===== src/ProviderHealth/Tracking.antt =====
-- What the monitor knows of a provider.
use pre_code.Common.{
  ℕ, zero, suc, ◌+◌, sym, ap, ◌∙◌, ◌/◌, ◌*◌, ◌==◌, insert-cases, ◌≤◌, ◌<◌, ◌≡◌, refl, subst, Option,
  none, some, List, [], ◌∷◌, ◌++◌, String, lookup, insert, length, length-append, count_if, leb,
  ltb, if◌then◌else◌, arith, inl, inr, get_at-below, sort_by, sort_by-Ascending, sort_by-count,
  length-sort_by, Ascending-get_at,
}
use pre_code.LlmRouter.Float.{float_add}
use pre_code.ProviderHealth.{
  HealthMonitor, ProviderHealth, HealthStatus, healthy, unhealthy, down, fresh_health,
  register_provider, record_failure, record_success, failed, succeeded, fail_health, succeed_health,
  check_health, checked, more_errors, status_after, drop_oldest, p50, or_zero,
}

pub data Report : Type 0 where
  registers : String → Report
  fails : String → Report
  succeeds : ℕ → String → ℕ → Report
  checks : ℕ → String → Option ℕ → Report

unfoldable pub step : Report → HealthMonitor → HealthMonitor
step (registers name) h = register_provider name h
step (fails name) h = record_failure name h
step (succeeds now name latency) h = record_success now name latency h
step (checks now name answer) h = check_health now name answer h

unfoldable pub run : List Report → HealthMonitor → HealthMonitor
run [] h = h
run (r ∷ rs) h = run rs (step r h)

-- The status, by the failures in a row.
abbrev pub status_of : ℕ → HealthStatus
status_of n = if n == 0 then healthy else if leb 3 n then down else unhealthy

-- The sums of 0.1 as floats have them: the third is 0.30000000000000004, the tenth
-- 0.9999999999999999, and from the eleventh on it is 1.
abbrev pub rate_of : ℕ → ℕ
rate_of zero = 0
rate_of (suc zero) = 7205759403792794
rate_of (suc (suc zero)) = 14411518807585588
rate_of (suc (suc (suc zero))) = 21617278211378384
rate_of (suc (suc (suc (suc zero)))) = 28823037615171176
rate_of (suc (suc (suc (suc (suc zero))))) = 36028797018963968
rate_of (suc (suc (suc (suc (suc (suc zero)))))) = 43234556422756760
rate_of (suc (suc (suc (suc (suc (suc (suc zero))))))) = 50440315826549552
rate_of (suc (suc (suc (suc (suc (suc (suc (suc zero)))))))) = 57646075230342344
rate_of (suc (suc (suc (suc (suc (suc (suc (suc (suc zero))))))))) = 64851834634135136
rate_of (suc (suc (suc (suc (suc (suc (suc (suc (suc (suc zero)))))))))) = 72057594037927928
rate_of (suc (suc (suc (suc (suc (suc (suc (suc (suc (suc (suc n))))))))))) = 72057594037927936

rate_of-more : (n : ℕ) → rate_of (suc n) ≡ more_errors (rate_of n)
unfolding more_errors float_add
rate_of-more zero = refl
rate_of-more (suc zero) = refl
rate_of-more (suc (suc zero)) = refl
rate_of-more (suc (suc (suc zero))) = refl
rate_of-more (suc (suc (suc (suc zero)))) = refl
rate_of-more (suc (suc (suc (suc (suc zero))))) = refl
rate_of-more (suc (suc (suc (suc (suc (suc zero)))))) = refl
rate_of-more (suc (suc (suc (suc (suc (suc (suc zero))))))) = refl
rate_of-more (suc (suc (suc (suc (suc (suc (suc (suc zero)))))))) = refl
rate_of-more (suc (suc (suc (suc (suc (suc (suc (suc (suc zero))))))))) = refl
rate_of-more (suc (suc (suc (suc (suc (suc (suc (suc (suc (suc zero)))))))))) = refl
rate_of-more (suc (suc (suc (suc (suc (suc (suc (suc (suc (suc (suc n))))))))))) = refl

-- The status and the error rate are those of the failures in a row, and the latencies are the last.
pub record Fine (e : ProviderHealth) : Type 0 where
  pub status : e.status ≡ status_of e.consecutive_fails
  pub rate : e.error_rate ≡ rate_of e.consecutive_fails
  pub recent : length e.latencies ≤ 100

abbrev pub AllFine : HealthMonitor → Type 0
AllFine h = (name : String) (e : ProviderHealth) → lookup name h ≡ some e → Fine e

insert-AllFine :
    (name : String) (e : ProviderHealth) (h : HealthMonitor)
    → Fine e
    → AllFine h
    → AllFine (insert name e h)
insert-AllFine name e h f a = λ other e' found. elim (insert-cases name other e e' h found) [
  | inl is ↦ subst Fine is f
  | inr old ↦ a other e' old.1
]

fail_health-Fine : (e : ProviderHealth) → Fine e → Fine (fail_health e)
unfolding fail_health status_after
fail_health-Fine e f = record {
  status = ground (arith, f.status);
  rate =
      ap more_errors f.rate
      ∙ sym (rate_of-more e.consecutive_fails)
      ∙ ap rate_of
          (let one : suc e.consecutive_fails ≡ e.consecutive_fails + 1 = omega arith in one);
  recent = f.recent;
}

drop_oldest-recent : (xs : List ℕ) → length xs ≤ 101 → length (drop_oldest xs) ≤ 100
drop_oldest-recent [] h = omega arith
drop_oldest-recent (x ∷ xs) h = ground arith

succeed_health-Fine :
    (now latency : ℕ) (e : ProviderHealth) → Fine e → Fine (succeed_health now latency e)
unfolding succeed_health
succeed_health-Fine now latency e f = record {
  status = refl;
  rate = refl;
  recent =
      drop_oldest-recent (e.latencies ++ latency ∷ [])
        (omega (arith, length-append e.latencies (latency ∷ []), f.recent));
}

failed-AllFine :
    (name : String) (h : HealthMonitor) (o : Option ProviderHealth)
    → lookup name h ≡ o
    → AllFine h
    → AllFine (failed name h o)
unfolding failed
failed-AllFine name h none e a = a
failed-AllFine name h (some p) e a =
    insert-AllFine name (fail_health p) h (fail_health-Fine p (a name p e)) a

succeeded-AllFine :
    (now latency : ℕ) (name : String) (h : HealthMonitor) (o : Option ProviderHealth)
    → lookup name h ≡ o
    → AllFine h
    → AllFine (succeeded now name latency h o)
unfolding succeeded
succeeded-AllFine now latency name h none e a = a
succeeded-AllFine now latency name h (some p) e a =
    insert-AllFine name (succeed_health now latency p) h
      (succeed_health-Fine now latency p (a name p e)) a

checked-AllFine :
    (now : ℕ) (name : String) (answer : Option ℕ) (h : HealthMonitor)
    → AllFine h
    → AllFine (checked now name answer h)
unfolding checked record_failure record_success
checked-AllFine now name none h a = failed-AllFine name h (lookup name h) refl a
checked-AllFine now name (some latency) h a =
    succeeded-AllFine now latency name h (lookup name h) refl a

step-AllFine : (r : Report) (h : HealthMonitor) → AllFine h → AllFine (step r h)
unfolding step register_provider record_failure record_success check_health
step-AllFine (registers name) h a = insert-AllFine name fresh_health h (ground arith) a
step-AllFine (fails name) h a = failed-AllFine name h (lookup name h) refl a
step-AllFine (succeeds now name latency) h a =
    succeeded-AllFine now latency name h (lookup name h) refl a
step-AllFine (checks now name answer) h a = checked-AllFine now name answer h a

run-AllFine_from : (rs : List Report) (h : HealthMonitor) → AllFine h → AllFine (run rs h)
unfolding run
run-AllFine_from [] h a = a
run-AllFine_from (r ∷ rs) h a = run-AllFine_from rs (step r h) (step-AllFine r h a)

-- After any registrations, failures, successes and checks of a new monitor: a provider is healthy
-- with no failures in a row, unhealthy with one or two and down with three or more, and never
-- degraded; its error rate is the sum of as many times 0.1 as there are failures in a row, rounded as
-- floats are, up to 1; and no more than 100 latencies are kept.
pub run-AllFine : (rs : List Report) → AllFine (run rs [])
unfolding lookup
run-AllFine rs = run-AllFine_from rs [] (λ name e found. cc)

-- The latency that is reported is one that at least half of the kept latencies do not exceed and
-- that does not exceed at least half of them, where any are kept.
pub p50-median :
    (latencies : List ℕ)
    → 0 < length latencies
    → (length latencies ≤ 2 * count_if (λ y. leb y (p50 latencies)) latencies)
      × (length latencies ≤ 2 * count_if (λ y. leb (p50 latencies) y) latencies)
unfolding p50 or_zero
p50-median latencies pos =
    let sorted = sort_by ltb latencies in
    let n : length sorted ≡ length latencies = length-sort_by ltb latencies in
    let (m, at) = get_at-below sorted (length latencies / 2) (omega (arith, n)) in
    let half =
      Ascending-get_at sorted (length latencies / 2) m
        (sort_by-Ascending ltb (λ y. y) (λ x y h. ground (arith, h)) (λ x y h. ground (arith, h))
          latencies)
        at in
    rw at (
      omega (
        arith,
        half,
        n,
        sort_by-count ltb (λ y. leb y m) latencies,
        sort_by-count ltb (λ y. leb m y) latencies,
      ))
