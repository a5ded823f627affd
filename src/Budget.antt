-- ===== src/Budget.antt =====
-- Cost budgets of organisations and tasks (internal/cost/budget.go). The locks make each method one
-- step. An amount, a float in the source, is a number of a unit in which every amount is whole, so
-- that sums are exact; rounding is not modelled. The persistent store is a parameter.
pub mod Keys
pub mod Spending
mod Examples
unfoldable pub use Keys.{org_key, task_key}
use pre_code.Common.{
  ℕ, ◌+◌, Bool, true, false, ◌&&◌, ◌||◌, Option, none, some, List, [], ◌∷◌, String, Dict, lookup,
  insert, ltb, ◌==◌, if◌then◌else◌,
}

-- `UsageStore`: what `LoadUsage` answers, where `none` is an error.
pub record UsageStore : Type 0 where
  pub load_usage : Option (Dict ℕ)

pub record BudgetManager : Type 0 where
  pub store : Option UsageStore
  pub org_budgets : Dict ℕ
  pub task_budgets : Dict ℕ
  pub usage : Dict ℕ
  pub default_org : ℕ
  pub default_task : ℕ
  pub loaded : Bool

pub data Scope : Type 0 where
  org task : Scope

pub record BudgetExceededError : Type 0 where
  pub scope : Scope
  pub id : String
  pub usage : ℕ
  pub budget : ℕ
  pub proposed : ℕ

unfoldable pub new_budget_manager : ℕ → ℕ → BudgetManager
new_budget_manager default_org default_task = record {
  store = none;
  org_budgets = [];
  task_budgets = [];
  usage = [];
  default_org = default_org;
  default_task = default_task;
  loaded = false;
}

unfoldable pub set_store : UsageStore → BudgetManager → BudgetManager
set_store store m = record m { store = some store; loaded = false }

-- `for k, v := range persisted { m.usage[k] = v }`
abbrev pub overwrite_all : Dict ℕ → Dict ℕ → Dict ℕ
overwrite_all [] usage = usage
overwrite_all ((k, v) ∷ d) usage = overwrite_all d (insert k v usage)

-- After an error `loaded` stays false, so that a later check tries again.
hydrate : Option (Dict ℕ) → BudgetManager → BudgetManager
hydrate none m = m
hydrate (some persisted) m = record m { usage = overwrite_all persisted m.usage; loaded = true }

load_from : Option UsageStore → BudgetManager → BudgetManager
unfolding hydrate
load_from none m = m
load_from (some store) m = hydrate store.load_usage m

unfoldable pub ensure_loaded : BudgetManager → BudgetManager
unfolding load_from
ensure_loaded m = if m.loaded then m else load_from m.store m

unfoldable pub set_org_budget : String → ℕ → BudgetManager → BudgetManager
set_org_budget id budget m = record m { org_budgets = insert id budget m.org_budgets }

unfoldable pub set_task_budget : String → ℕ → BudgetManager → BudgetManager
set_task_budget id budget m = record m { task_budgets = insert id budget m.task_budgets }

-- `m[k]`, with a value for a missing key.
abbrev pub value_or : ℕ → Option ℕ → ℕ
value_or default none = default
value_or default (some v) = v

unfoldable pub get_org_budget : String → BudgetManager → ℕ
get_org_budget id m = value_or m.default_org (lookup id m.org_budgets)

unfoldable pub get_task_budget : String → BudgetManager → ℕ
get_task_budget id m = value_or m.default_task (lookup id m.task_budgets)

unfoldable pub get_org_usage : String → BudgetManager → ℕ
get_org_usage id m = value_or 0 (lookup (org_key id) m.usage)

unfoldable pub get_task_usage : String → BudgetManager → ℕ
get_task_usage id m = value_or 0 (lookup (task_key id) m.usage)

-- A budget of 0 is no limit.
unfoldable pub exceeds : ℕ → ℕ → ℕ → Bool
exceeds budget usage proposed = ltb 0 budget && ltb budget (usage + proposed)

check_loaded : String → String → ℕ → BudgetManager → Option BudgetExceededError
unfolding exceeds
check_loaded org_id task_id proposed m =
    if exceeds (get_org_budget org_id m) (get_org_usage org_id m) proposed
    then some (record {
      scope = org;
      id = org_id;
      usage = get_org_usage org_id m;
      budget = get_org_budget org_id m;
      proposed = proposed;
    })
    else if exceeds (get_task_budget task_id m) (get_task_usage task_id m) proposed
    then some (record {
      scope = task;
      id = task_id;
      usage = get_task_usage task_id m;
      budget = get_task_budget task_id m;
      proposed = proposed;
    })
    else none

-- `CheckBudget`; the callback of a refusal is told its error and changes nothing here.
unfoldable pub check_budget :
    String → String → ℕ → BudgetManager → BudgetManager × Option BudgetExceededError
unfolding check_loaded
check_budget org_id task_id proposed m =
    let m' = ensure_loaded m in (m', check_loaded org_id task_id proposed m')

-- `m.usage[key] += cost`
abbrev pub add_usage : String → ℕ → Dict ℕ → Dict ℕ
add_usage key cost usage = insert key (value_or 0 (lookup key usage) + cost) usage

-- The counters; the store is sent the same amounts, and its errors are only logged.
unfoldable pub record_cost : String → String → ℕ → BudgetManager → BudgetManager
record_cost org_id task_id cost m = record m {
  usage = add_usage (task_key task_id) cost (add_usage (org_key org_id) cost m.usage);
}

unfoldable pub reset_usage : BudgetManager → BudgetManager
reset_usage m = record m { usage = [] }
