-- ===== src/ProviderHealth/Examples.antt =====
-- The health monitor at concrete reports, and its theorems there.
use pre_code.Common.{sort_by, get_at, insert, ℕ, ◌≡◌, refl, none, List, [], ◌∷◌, lookup}
use pre_code.ProviderHealth.{
  register_provider, record_failure, check_health, record_success, confidence,
  get_healthy_providers, p50,
}
use pre_code.ProviderHealth.Tracking.{
  step, Report, registers, fails, succeeds, checks, run, AllFine, run-AllFine,
}

-- One provider fails twice, and a check of it passes; another fails three times.
abbrev reports : List Report
reports =
    registers "openai"
    ∷ registers "groq"
    ∷ fails "openai"
    ∷ fails "openai"
    ∷ fails "groq"
    ∷ fails "groq"
    ∷ checks 5 "groq" none
    ∷ succeeds 7 "openai" 30
    ∷ []

reports_healthy : get_healthy_providers (run reports []) ≡ "openai" ∷ []
unfolding run get_healthy_providers step record_success lookup check_health record_failure
    register_provider insert
reports_healthy = refl

reports_confidence : confidence "groq" (run reports []) ≡ 0
unfolding run confidence lookup step record_success check_health record_failure register_provider
    insert
reports_confidence = refl

run-AllFine_example : AllFine (run reports [])
run-AllFine_example = run-AllFine reports

abbrev four : List ℕ
four = 30 ∷ 10 ∷ 40 ∷ 20 ∷ []

p50-four : p50 four ≡ 30
unfolding p50 get_at sort_by
p50-four = refl
