-- ===== src/LlmRouter/Attempts/Shut.antt =====
-- The breakers of the providers while the router runs.
use pre_code.Common.{
  Bool, ℕ, suc, ◌≡◌, refl, sym, ◌∙◌, subst, true, false, Option, none, some, List, [], ◌∷◌, String,
  Dict, lookup, lookup-insert, str_eq, eq_iff, Bool-cases, inl, inr, length,
}
use pre_code.Breaker.{CircuitBreaker, is_open}
use pre_code.LlmCache.{ChatResponse, InMemoryCache}
use pre_code.Budget.{BudgetManager}
use pre_code.ProviderHealth.{check_health}
use pre_code.LlmRouter.Pricing.{ModelInfo}
use pre_code.LlmRouter.Tasks.{Task}
use pre_code.LlmRouter.Choice.{FallbackOption, RoutingDecision}
use pre_code.LlmRouter.Attempts.{
  ChatRequest, Provider, ModelRouter, Readings, attempt_with, attempt, refuses, try_all, first_of,
  response, ranked, remaining, executed, execute_with_failover, set_cache, set_budget_guard,
  set_prices, add_provider,
}
use pre_code.LlmRouter.Attempts.Streams.{
  ChatChunk, drain, ended, stream_attempt, stream_with_failover,
}
use pre_code.LlmRouter.Attempts.Streams.Refusal.{stream_attempt-refused, stream_keeps_open}
use pre_code.LlmRouter.Attempts.Effects.{attempt-Keeps}

-- What the program does with a router. A stream runs to its end, with the chunks that arrive and the
-- room for each.
pub data Action : Type 0 where
  executes : (ℕ → Readings) → Task → Action
  streams :
      (ℕ → Readings) → Readings → Task → Dict ModelInfo → ℕ → (ℕ → Bool) → List ChatChunk → Action
  checks : ℕ → String → Option ℕ → Action
  sets_cache : Option InMemoryCache → Action
  sets_budget : Option BudgetManager → Action
  sets_prices : Dict ModelInfo → Action
  adds : String → Provider → Action

-- The provider is not registered again.
abbrev pub NotAdded : String → List Action → Type 0
NotAdded name [] = Unit
NotAdded name (adds other p ∷ todo) = (str_eq other name ≡ false) × NotAdded name todo
NotAdded name (executes at task ∷ todo) = NotAdded name todo
NotAdded name (streams at end task table latency room chunks ∷ todo) = NotAdded name todo
NotAdded name (checks now other answer ∷ todo) = NotAdded name todo
NotAdded name (sets_cache c ∷ todo) = NotAdded name todo
NotAdded name (sets_budget b ∷ todo) = NotAdded name todo
NotAdded name (sets_prices prices ∷ todo) = NotAdded name todo

-- The provider's breaker is this one.
abbrev Has : String → CircuitBreaker → ModelRouter → Type 0
Has name cb r = lookup name r.circuit_breakers ≡ some cb

module _ (cache_key : ChatRequest → String) where
  unfoldable pub step : Action → ModelRouter → ModelRouter
  unfolding execute_with_failover set_cache set_budget_guard set_prices add_provider
  step (executes at task) r = (execute_with_failover cache_key at task r).0
  step (streams at end task table latency room chunks) r =
      ended end task table latency (drain room 0 chunks) (stream_with_failover at task r)
  step (checks now name answer) r = record r {
    health_monitor = check_health now name answer r.health_monitor;
  }
  step (sets_cache c) r = set_cache c r
  step (sets_budget b) r = set_budget_guard b r
  step (sets_prices prices) r = set_prices prices r
  step (adds name p) r = add_provider name p r

  unfoldable pub run : List Action → ModelRouter → ModelRouter
  run [] r = r
  run (a ∷ todo) r = run todo (step a r)

  refused_with :
      (at : Readings) (task : Task) (opt : FallbackOption) (r : ModelRouter) (o : Option Provider)
      → refuses (lookup opt.provider r.circuit_breakers) ≡ true
      → ((attempt_with cache_key at task opt r o).0 ≡ r)
        × (response (attempt_with cache_key at task opt r o).1 ≡ none)
  unfolding attempt_with response
  refused_with at task opt r none h = (refl, refl)
  refused_with at task opt r (some p) h = rw h (refl, refl)

  refused :
      (at : Readings) (task : Task) (opt : FallbackOption) (r : ModelRouter) (cb : CircuitBreaker)
      → Has opt.provider cb r
      → is_open cb ≡ true
      → ((attempt cache_key at task opt r).0 ≡ r)
        × (response (attempt cache_key at task opt r).1 ≡ none)
  unfolding attempt refuses
  refused at task opt r cb h o =
      refused_with at task opt r (lookup opt.provider r.providers) (rw h o)

  attempt-Has :
      (at : Readings) (task : Task) (opt : FallbackOption) (r : ModelRouter) (name : String)
      (cb : CircuitBreaker)
      → is_open cb ≡ true
      → Has name cb r
      → Has name cb (attempt cache_key at task opt r).0
  attempt-Has at task opt r name cb o h = elim (Bool-cases (str_eq opt.provider name)) [
    | inl is ↦
        (let used : opt.provider ≡ name = (eq_iff opt.provider name).0 is in
          let same =
            (refused at task opt r cb (subst (λ (n : String). Has n cb r) (sym used) h) o).0 in
          subst (λ (s : ModelRouter). Has name cb s) (sym same) h)
    | inr other ↦ (attempt-Keeps cache_key at task opt r).breakers name other ∙ h
  ]

  first_of-Has :
      (name : String) (cb : CircuitBreaker) (o : Option ChatResponse) (r : ModelRouter)
      (rest : ModelRouter × Option ChatResponse)
      → Has name cb r
      → Has name cb rest.0
      → Has name cb (first_of o r rest).0
  first_of-Has name cb none r rest h k = k
  first_of-Has name cb (some resp) r rest h k = h

  try_all-Has :
      (at : ℕ → Readings) (n : ℕ) (task : Task) (opts : List FallbackOption) (r : ModelRouter)
      (name : String) (cb : CircuitBreaker)
      → is_open cb ≡ true
      → Has name cb r
      → Has name cb (try_all cache_key at n task opts r).0
  unfolding try_all
  try_all-Has at n task [] r name cb o h = h
  try_all-Has at n task (opt ∷ opts) r name cb o h =
      let k = attempt-Has (at n) task opt r name cb o h in
      first_of-Has name cb _ (attempt cache_key (at n) task opt r).0 _ k
        (try_all-Has at (suc n) task opts (attempt cache_key (at n) task opt r).0 name cb o k)

  executed-Has :
      (at : ℕ → Readings) (task : Task) (r : ModelRouter) (d : Option RoutingDecision)
      (name : String) (cb : CircuitBreaker)
      → is_open cb ≡ true
      → Has name cb r
      → Has name cb (executed cache_key at task r d).0
  unfolding executed
  executed-Has at task r none name cb o h = h
  executed-Has at task r (some d) name cb o h =
      let r' = (try_all cache_key at 0 task (ranked d) r).0 in
      let k = try_all-Has at 0 task (ranked d) r name cb o h in
      first_of-Has name cb _ r' _ k (
        try_all-Has at (length (ranked d)) task (remaining (ranked d) r'.prices r'.providers) r'
          name cb o k)

  set_prices-Has :
      (prices : Dict ModelInfo) (r : ModelRouter) (name : String) (cb : CircuitBreaker)
      → Has name cb r
      → Has name cb (set_prices prices r)
  unfolding set_prices
  set_prices-Has [] r name cb h = h
  set_prices-Has (p ∷ prices) r name cb h = h

  -- A provider whose breaker is open, after anything that the router does for one caller at a time,
  -- streams included, without that provider being registered again, at whatever times: the breaker
  -- is as it was, and every attempt at the provider ends without a response or a stream and without
  -- any effect on the router.
  pub run-refuses :
      (todo : List Action) (r : ModelRouter) (name : String) (cb : CircuitBreaker)
      → lookup name r.circuit_breakers ≡ some cb
      → is_open cb ≡ true
      → NotAdded name todo
      → (lookup name (run todo r).circuit_breakers ≡ some cb)
        × ((at : Readings) (task : Task) (opt : FallbackOption)
            → opt.provider ≡ name
            → ((attempt cache_key at task opt (run todo r)).0 ≡ run todo r)
              × (response (attempt cache_key at task opt (run todo r)).1 ≡ none)
              × (stream_attempt at task opt (run todo r) ≡ (run todo r, false)))
  unfolding run step execute_with_failover set_cache set_budget_guard add_provider
  run-refuses [] r name cb h o n = (
    h,
    λ at task opt used.
        (let (kept, silent) = refused at task opt r cb (rw used h) o in
          (kept, silent, stream_attempt-refused at task opt r cb (rw used h) o)),
  )
  run-refuses (executes at task ∷ todo) r name cb h o n =
      run-refuses todo _ name cb (executed-Has at task r _ name cb o h) o n
  run-refuses (streams at end task table latency room chunks ∷ todo) r name cb h o n =
      run-refuses todo _ name cb
        (stream_keeps_open at end task table latency (drain room 0 chunks) r name cb o h) o n
  run-refuses (checks now other answer ∷ todo) r name cb h o n = run-refuses todo _ name cb h o n
  run-refuses (sets_cache c ∷ todo) r name cb h o n = run-refuses todo _ name cb h o n
  run-refuses (sets_budget b ∷ todo) r name cb h o n = run-refuses todo _ name cb h o n
  run-refuses (sets_prices prices ∷ todo) r name cb h o n =
      run-refuses todo _ name cb (set_prices-Has prices r name cb h) o n
  run-refuses (adds other p ∷ todo) r name cb h o n =
      run-refuses todo _ name cb (lookup-insert other name _ r.circuit_breakers ∙ rw n.0 h) o n.1
