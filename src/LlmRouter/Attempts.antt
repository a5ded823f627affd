-- ===== src/LlmRouter/Attempts.antt =====
-- The attempts at the providers (internal/llm/provider.go: `ModelRouter`, `attempt`,
-- `ExecuteWithFailover`). The router runs for one caller at a time. What a provider answers, and
-- the key of a request in the cache, are parameters; of a response, the cost is in
-- the unit of the price table. The errors of a chat are one.
pub mod Streams
pub mod Effects
pub mod Failover
pub mod Shut
pub mod Again
use pre_code.Common.{
  ℕ, zero, suc, ◌+◌, Bool, true, false, Option, none, some, List, [], ◌∷◌, ◌++◌, String, Dict,
  lookup, insert, str_eq, if◌then◌else◌, length,
}
use pre_code.Breaker.{CircuitBreaker, new, execute, is_open}
use pre_code.LlmCache.{ChatResponse, InMemoryCache, get, set}
use pre_code.ProviderHealth.{HealthMonitor, register_provider, record_failure, record_success}
use pre_code.Budget.{BudgetManager, BudgetExceededError, check_budget, record_cost}
use pre_code.LlmRouter.Pricing.{ModelInfo, contains, default_model_for, max_tokens_for, price_table}
use pre_code.LlmRouter.Tasks.{Task, Message, system_prompt}
use pre_code.LlmRouter.Choice.{RouterConfig, RoutingDecision, FallbackOption, route}

-- The fields that an attempt sets.
pub record ChatRequest : Type 0 where
  pub model : String
  pub messages : List Message
  pub system : String
  pub max_tokens : ℕ

-- What `Chat` answers in the call that starts at a time, where `none` is an error, and whether
-- `Stream` then starts a stream.
pub record Provider : Type 0 where
  pub chat : ℕ → ChatRequest → Option ChatResponse
  pub stream : ℕ → ChatRequest → Bool

pub record ModelRouter : Type 0 where
  pub providers : Dict Provider
  pub health_monitor : HealthMonitor
  pub circuit_breakers : Dict CircuitBreaker
  pub config : RouterConfig
  pub prices : Dict ModelInfo
  pub cache : Option InMemoryCache
  pub budget : Option BudgetManager

-- The configuration that stands for a missing one, and for a missing number of tokens.
config_of : Option RouterConfig → RouterConfig
config_of none = record { default_model = "claude-sonnet-4-20250514"; default_output_tokens = 500 }
config_of (some c) = elim c.default_output_tokens [
  | zero ↦ record c { default_output_tokens = 500 }
  | suc _ ↦ c
]

unfoldable pub new_model_router : Option RouterConfig → ModelRouter
unfolding config_of price_table
new_model_router config = record {
  providers = [];
  health_monitor = [];
  circuit_breakers = [];
  config = config_of config;
  prices = price_table;
  cache = none;
  budget = none;
}

unfoldable pub set_cache : Option InMemoryCache → ModelRouter → ModelRouter
set_cache c r = record r { cache = c }

unfoldable pub set_budget_guard : Option BudgetManager → ModelRouter → ModelRouter
set_budget_guard b r = record r { budget = b }

-- An empty table is not taken.
unfoldable pub set_prices : Dict ModelInfo → ModelRouter → ModelRouter
set_prices [] r = r
set_prices (p ∷ prices) r = record r { prices = p ∷ prices }

-- Five failures open the circuit for 30 seconds.
unfoldable pub add_provider : String → Provider → ModelRouter → ModelRouter
add_provider name p r = record r {
  providers = insert name p r.providers;
  health_monitor = register_provider name r.health_monitor;
  circuit_breakers = insert name (new 5 30000000000) r.circuit_breakers;
}

-- What an attempt comes to: `hit` and `answered` return a response, from the cache or from the
-- provider; the others return an error, `chat_failed` that of the provider.
pub data Outcome : Type 0 where
  not_registered : Outcome
  breaker_open : Outcome
  over_budget : BudgetExceededError → Outcome
  chat_failed : Outcome
  hit : ChatResponse → Outcome
  answered : ChatResponse → Outcome

-- The readings of the clock in one attempt: at the lookup in the cache, when the call starts, when
-- the breaker is told (twice) and when the response is stored.
pub record Readings : Type 0 where
  pub looked_at : ℕ
  pub called_at : ℕ
  pub told_at : ℕ
  pub settled_at : ℕ
  pub stored_at : ℕ

-- `cb != nil && cb.IsOpen()`
unfoldable pub refuses : Option CircuitBreaker → Bool
refuses none = false
refuses (some cb) = is_open cb

-- `cb.Execute(func() error { return err })` on the breaker that was found.
told : Readings → Bool → String → Dict CircuitBreaker → Option CircuitBreaker → Dict CircuitBreaker
told at failed name cbs none = cbs
told at failed name cbs (some cb) =
    insert name (execute (λ c. c) at.told_at at.settled_at failed cb).0 cbs

unfoldable pub tell : Readings → Bool → String → Dict CircuitBreaker → Dict CircuitBreaker
unfolding told
tell at failed name cbs = told at failed name cbs (lookup name cbs)

-- `if cache != nil { … cache.Get(key) … }`
consult : ℕ → String → Option InMemoryCache → Option InMemoryCache × Option ChatResponse
consult now key none = (none, none)
consult now key (some c) = let (c', found) = get now key c in (some c', found)

-- `if cache != nil { cache.Set(key, resp) }`
store : ℕ → String → ChatResponse → Option InMemoryCache → Option InMemoryCache
store now key resp none = none
store now key resp (some c) = some (set now key (some resp) c)

-- `if budget != nil { … budget.CheckBudget(…) … }`
gate : Task → ℕ → Option BudgetManager → Option BudgetManager × Option BudgetExceededError
gate task cost none = (none, none)
gate task cost (some m) = let (m', e) = check_budget task.org_id task.id cost m in (some m', e)

-- `if budget != nil { budget.RecordCost(…) }`
unfoldable pub pay : Task → ℕ → Option BudgetManager → Option BudgetManager
pay task cost none = none
pay task cost (some m) = some (record_cost task.org_id task.id cost m)

unfoldable pub request_of : Task → String → Dict ModelInfo → ChatRequest
request_of task model prices = record {
  model = model;
  messages = task.messages;
  system = system_prompt task;
  max_tokens = max_tokens_for model prices;
}

-- `if err == nil { return resp, nil }`
unfoldable pub response : Outcome → Option ChatResponse
response (hit resp) = some resp
response (answered resp) = some resp
response _ = none

-- A response ends a loop, with the router as it was then.
abbrev pub first_of :
    Option ChatResponse
    → ModelRouter
    → ModelRouter × Option ChatResponse
    → ModelRouter × Option ChatResponse
first_of none r rest = rest
first_of (some resp) r rest = (r, some resp)

-- `attempts`: the primary, then the fallbacks.
unfoldable pub ranked : RoutingDecision → List FallbackOption
ranked d = record { provider = d.provider; model = d.model; est_cost = d.est_cost } ∷ d.fallbacks

unfoldable pub is_tried : String → List FallbackOption → Bool
is_tried name [] = false
is_tried name (opt ∷ opts) =
    let rest = is_tried name opts in if str_eq opt.provider name then true else rest

-- The providers that were not tried and have a model, at no estimated cost.
unfoldable pub remaining :
    List FallbackOption → Dict ModelInfo → Dict Provider → List FallbackOption
unfolding is_tried
remaining opts prices [] = []
remaining opts prices ((name, p) ∷ ps) =
    let rest = remaining opts prices ps in
    let model = default_model_for name prices in
    if is_tried name opts
    then rest
    else if str_eq model ""
    then rest
    else record { provider = name; model = model; est_cost = 0 } ∷ rest

module _ (cache_key : ChatRequest → String) where
  -- After the call of the provider.
  called :
      Readings → Task → FallbackOption → ModelRouter → Option ChatResponse → ModelRouter × Outcome
  unfolding tell store pay
  called at task opt r none = (
    record r {
      health_monitor = record_failure opt.provider r.health_monitor;
      circuit_breakers = tell at true opt.provider r.circuit_breakers;
    },
    chat_failed,
  )
  called at task opt r (some resp) = (
    record r {
      health_monitor = record_success at.told_at opt.provider resp.latency r.health_monitor;
      circuit_breakers = tell at false opt.provider r.circuit_breakers;
      budget = pay task resp.cost r.budget;
      cache = store at.stored_at (cache_key (request_of task opt.model r.prices)) resp r.cache;
    },
    answered resp,
  )

  -- After the check of the budget.
  gated :
      Readings
      → Task
      → FallbackOption
      → Provider
      → ModelRouter
      → Option BudgetExceededError
      → ModelRouter × Outcome
  unfolding called
  gated at task opt p r none =
      called at task opt r (p.chat at.called_at (request_of task opt.model r.prices))
  gated at task opt p r (some e) = (r, over_budget e)

  -- After the lookup in the cache.
  consulted :
      Readings
      → Task
      → FallbackOption
      → Provider
      → ModelRouter
      → Option ChatResponse
      → ModelRouter × Outcome
  unfolding gate gated
  consulted at task opt p r none =
      let (budget', e) = gate task opt.est_cost r.budget in
      gated at task opt p (record r { budget = budget' }) e
  consulted at task opt p r (some resp) = (r, hit resp)

  -- With the provider that is registered, if any.
  attempt_with :
      Readings → Task → FallbackOption → ModelRouter → Option Provider → ModelRouter × Outcome
  unfolding consult consulted
  attempt_with at task opt r none = (r, not_registered)
  attempt_with at task opt r (some p) =
      if refuses (lookup opt.provider r.circuit_breakers)
      then (r, breaker_open)
      else (let (cache', found) =
            consult at.looked_at (cache_key (request_of task opt.model r.prices)) r.cache in
          consulted at task opt p (record r { cache = cache' }) found)

  unfoldable pub attempt : Readings → Task → FallbackOption → ModelRouter → ModelRouter × Outcome
  unfolding attempt_with
  attempt at task opt r = attempt_with at task opt r (lookup opt.provider r.providers)

  -- A loop over attempts, the n-th of which reads the clock `at n`.
  unfoldable pub try_all :
      (ℕ → Readings)
      → ℕ
      → Task
      → List FallbackOption
      → ModelRouter
      → ModelRouter × Option ChatResponse
  unfolding attempt response
  try_all at n task [] r = (r, none)
  try_all at n task (opt ∷ opts) r =
      let (r', outcome) = attempt (at n) task opt r in
      let rest = try_all at (suc n) task opts r' in first_of (response outcome) r' rest

  executed :
      (ℕ → Readings)
      → Task
      → ModelRouter
      → Option RoutingDecision
      → ModelRouter × Option ChatResponse
  unfolding try_all ranked remaining
  executed at task r none = (r, none)
  executed at task r (some d) =
      let (r', result) = try_all at 0 task (ranked d) r in
      let rest =
        try_all at (length (ranked d)) task (remaining (ranked d) r'.prices r'.providers) r' in
      first_of result r' rest

  -- `ExecuteWithFailover`; `none` is an error.
  unfoldable pub execute_with_failover :
      (ℕ → Readings) → Task → ModelRouter → ModelRouter × Option ChatResponse
  unfolding executed
  execute_with_failover at task r =
      executed at task r (route r.config r.health_monitor r.prices task)
