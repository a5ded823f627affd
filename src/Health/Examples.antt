-- ===== src/Health/Examples.antt =====
-- The aggregation at concrete components, and its theorem there.
use pre_code.Common.{insert, ◌≡◌, refl, String, some, [], ◌∷◌, lookup}
use pre_code.Health.{
  run_all, store_results, Status, healthy, degraded, unknown, Component, Health, new_health,
  register, run_checks, overall, summary, get_component, all_components,
}
use pre_code.Health.Aggregate.{worst, overall-summary}

abbrev answer : String → Status → Component
answer name status = record { name = name; status = status; message = ""; last_check = 0 }

abbrev server : Health
server =
    register "db" (λ now. answer "" healthy)
      (register "redis" (λ now. answer "redis" degraded) new_health)

-- A component that was not checked yet does not keep the whole from being healthy.
unchecked_overall : overall server ≡ healthy
unfolding overall register insert new_health
unchecked_overall = refl

checked_overall : overall (run_checks 5 server) ≡ degraded
unfolding overall run_checks store_results run_all register insert new_health
checked_overall = refl

checked_name :
    get_component "db" (run_checks 5 server)
    ≡ some (record (answer "db" healthy) { last_check = 5 })
unfolding get_component lookup run_checks store_results run_all register insert new_health
checked_name = refl

all_unchecked : all_components server.components ≡ answer "redis" unknown ∷ answer "db" unknown ∷ []
unfolding all_components register insert new_health
all_unchecked = refl

overall-summary_example :
    (overall (run_checks 5 server) ≡ worst (run_checks 5 server).components)
    × ((summary (run_checks 5 server)).overall ≡ worst (run_checks 5 server).components)
overall-summary_example = overall-summary (run_checks 5 server)
