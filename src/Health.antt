-- ===== src/Health.antt =====
-- The health of the components of the server (internal/health/health.go). The lock makes a method
-- one step, but for RunChecks: `run_checks` runs the checks, which are parameters, and
-- `store_results` is its last critical section. Of a component, the model has what decides.
pub mod Aggregate
mod Examples
use pre_code.Common.{
  ℕ, suc, ◌+◌, ◌==◌, Bool, true, false, not, Option, none, some, List, [], ◌∷◌, String, Dict,
  lookup, insert, length, str_eq, if◌then◌else◌,
}

pub data Status : Type 0 where
  healthy degraded unhealthy unknown : Status

pub record Component : Type 0 where
  pub name : String
  pub status : Status
  pub message : String
  pub last_check : ℕ

-- What a check answers in the round that begins at a time.
abbrev pub Check : Type 0
Check = ℕ → Component

pub record Health : Type 0 where
  pub components : Dict Component
  pub checks : Dict Check

unfoldable pub new_health : Health
new_health = record { components = []; checks = [] }

unfoldable pub register : String → Check → Health → Health
register name check h = record h {
  checks = insert name check h.checks;
  components =
      insert name (record { name = name; status = unknown; message = ""; last_check = 0 })
        h.components;
}

-- One result, with the name of the check where it has none.
result_of : ℕ → String → Component → Component
result_of now name c = record c {
  name = if str_eq c.name "" then name else c.name;
  last_check = now;
}

unfoldable pub run_all : ℕ → Dict Check → Dict Component
unfolding result_of
run_all now [] = []
run_all now ((name, check) ∷ d) = (name, result_of now name (check now)) ∷ run_all now d

-- `for name, comp := range results { h.components[name] = comp }`
unfoldable pub store_results : Dict Component → Dict Component → Dict Component
store_results [] components = components
store_results ((name, c) ∷ results) components = store_results results (insert name c components)

unfoldable pub run_checks : ℕ → Health → Health
run_checks now h = record h { components = store_results (run_all now h.checks) h.components }

-- The loop of `Overall`: the flag is `hasUnhealthy`, which notes the degraded ones.
overall_from : Bool → Dict Component → Status
overall_from noted [] = if noted then degraded else healthy
overall_from noted ((name, c) ∷ d) = elim c.status [
  | unhealthy ↦ unhealthy
  | degraded ↦ overall_from true d
  | healthy ↦ overall_from noted d
  | unknown ↦ overall_from noted d
]

-- No components, after the loop over none.
unfoldable pub overall : Health → Status
unfolding overall_from
overall h = if length h.components == 0 then unknown else overall_from false h.components

unfoldable pub get_component : String → Health → Option Component
get_component name h = lookup name h.components

unfoldable pub all_components : Dict Component → List Component
all_components [] = []
all_components ((name, c) ∷ d) = c ∷ all_components d

pub record Report : Type 0 where
  pub overall : Status
  pub total : ℕ
  pub statuses : Status → ℕ

-- The status that the loop of `Summary` has so far.
lowered : Status → Status → Status
lowered unhealthy unhealthy = unhealthy
lowered unhealthy degraded = unhealthy
lowered unhealthy healthy = unhealthy
lowered unhealthy unknown = unhealthy
lowered so_far unhealthy = unhealthy
lowered so_far degraded = degraded
lowered so_far healthy = so_far
lowered so_far unknown = so_far

summarized : Status → Dict Component → Status
unfolding lowered
summarized so_far [] = so_far
summarized so_far ((name, c) ∷ d) = summarized (lowered so_far c.status) d

unfoldable pub is_status : Status → Status → Bool
is_status healthy healthy = true
is_status degraded degraded = true
is_status unhealthy unhealthy = true
is_status unknown unknown = true
is_status _ _ = false

-- How many components have the status.
unfoldable pub count_status : Status → Dict Component → ℕ
count_status s [] = 0
count_status s ((name, c) ∷ d) =
    let rest = count_status s d in if is_status c.status s then suc rest else rest

unfoldable pub summary : Health → Report
unfolding summarized
summary h = record {
  overall = if length h.components == 0 then unknown else summarized healthy h.components;
  total = length h.components;
  statuses = λ s. count_status s h.components;
}
