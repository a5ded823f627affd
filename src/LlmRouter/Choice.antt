-- ===== src/LlmRouter/Choice.antt =====
-- The choice of a model (internal/llm/provider.go: `rankCandidates`, `Route`). The reason, a text
-- for the log, and the latency, a constant, are left out of a candidate.
pub mod Ranking
pub mod Tiers
use pre_code.Common.{
  ℕ, zero, suc, Bool, true, false, ◌&&◌, not, ◌==◌, Option, none, some, List, [], ◌∷◌, ◌++◌, String,
  Dict, lookup, str_eq, ltb, if◌then◌else◌, sort_by,
}
use pre_code.ProviderHealth.{HealthMonitor, get_healthy_providers, confidence}
use pre_code.LlmRouter.Pricing.{ModelInfo, contains, supports_all, est_cost_of}
use pre_code.LlmRouter.Tasks.{
  Task, classify_complexity, estimate_input_tokens, get_models_for_complexity,
}

-- `BudgetPerTask` is read by nothing here.
pub record RouterConfig : Type 0 where
  pub default_model : String
  pub default_output_tokens : ℕ

pub record RoutingCandidate : Type 0 where
  pub provider : String
  pub model : String
  pub est_cost : ℕ
  pub confidence : ℕ

pub record FallbackOption : Type 0 where
  pub provider : String
  pub model : String
  pub est_cost : ℕ

pub record RoutingDecision : Type 0 where
  pub provider : String
  pub model : String
  pub est_cost : ℕ
  pub confidence : ℕ
  pub fallbacks : List FallbackOption

unfoldable pub candidate_of :
    RouterConfig → HealthMonitor → Task → String → ModelInfo → RoutingCandidate
candidate_of config h task model info = record {
  provider = info.provider;
  model = model;
  est_cost = est_cost_of (estimate_input_tokens task) config.default_output_tokens info;
  confidence = confidence info.provider h;
}

-- The closure `addCandidate`, of what the table has for the model: the candidates that it appends.
unfoldable pub added :
    RouterConfig → HealthMonitor → Task → String → Option ModelInfo → List RoutingCandidate
unfolding candidate_of
added config h task model none = []
added config h task model (some info) =
    if contains info.provider (get_healthy_providers h)
    then if supports_all info task.required_capabilities
      then candidate_of config h task model info ∷ []
      else []
    else []

unfoldable pub add_candidate :
    RouterConfig → HealthMonitor → Dict ModelInfo → Task → String → List RoutingCandidate
unfolding added
add_candidate config h prices task model = added config h task model (lookup model prices)

unfoldable pub add_all :
    RouterConfig → HealthMonitor → Dict ModelInfo → Task → List String → List RoutingCandidate
unfolding add_candidate
add_all config h prices task [] = []
add_all config h prices task (model ∷ models) =
    add_candidate config h prices task model ++ add_all config h prices task models

unfoldable pub models_to_consider : Task → List String
models_to_consider task =
    let models = get_models_for_complexity (classify_complexity task) in
    if str_eq task.target_model "" then models else task.target_model ∷ models

-- The configured default, where nothing else is left.
unfoldable pub or_default :
    RouterConfig
    → HealthMonitor
    → Dict ModelInfo
    → Task
    → List RoutingCandidate
    → List RoutingCandidate
unfolding add_candidate
or_default config h prices task [] =
    if not (str_eq config.default_model "") && not (str_eq config.default_model task.target_model)
    then add_candidate config h prices task config.default_model
    else []
or_default config h prices task (c ∷ cs) = c ∷ cs

-- The candidates before they are sorted.
unfoldable pub candidates :
    RouterConfig → HealthMonitor → Dict ModelInfo → Task → List RoutingCandidate
unfolding or_default add_all models_to_consider
candidates config h prices task =
    or_default config h prices task (add_all config h prices task (models_to_consider task))

-- Cheapest first; of two that cost the same, the higher confidence first.
unfoldable pub cheaper : RoutingCandidate → RoutingCandidate → Bool
cheaper c d =
    if c.est_cost == d.est_cost then ltb d.confidence c.confidence else ltb c.est_cost d.est_cost

unfoldable pub rank_candidates :
    RouterConfig → HealthMonitor → Dict ModelInfo → Task → List RoutingCandidate
unfolding candidates
rank_candidates config h prices task = sort_by cheaper (candidates config h prices task)

fallback_of : RoutingCandidate → FallbackOption
fallback_of c = record { provider = c.provider; model = c.model; est_cost = c.est_cost }

-- `candidates[1:end]`, as fallbacks: three at most.
fallbacks_of : ℕ → List RoutingCandidate → List FallbackOption
unfolding fallback_of
fallbacks_of n [] = []
fallbacks_of zero (c ∷ cs) = []
fallbacks_of (suc n) (c ∷ cs) = fallback_of c ∷ fallbacks_of n cs

decide : List RoutingCandidate → Option RoutingDecision
unfolding fallbacks_of
decide [] = none
decide (primary ∷ others) = some (record {
  provider = primary.provider;
  model = primary.model;
  est_cost = primary.est_cost;
  confidence = primary.confidence;
  fallbacks = fallbacks_of 3 others;
})

-- `Route`; `none` is the error that no healthy provider supports the task.
unfoldable pub route : RouterConfig → HealthMonitor → Dict ModelInfo → Task → Option RoutingDecision
unfolding decide
route config h prices task = decide (rank_candidates config h prices task)
