-- ===== src/LlmRouter/Attempts/Failover.antt =====
-- When the failover finds a response.
use pre_code.Common.{
  ℕ, suc, ◌≡◌, refl, sym, ◌∙◌, ap, subst, Bool, true, false, Option, none, some, is_some, List, [],
  ◌∷◌, String, Dict, lookup, str_eq, str_eq_refl, eq_iff, Bool-cases, inl, inr, length, arith,
}
use pre_code.Breaker.{CircuitBreaker}
use pre_code.LlmCache.{ChatResponse}
use pre_code.Budget.{BudgetManager, BudgetExceededError}
use pre_code.ProviderHealth.{get_healthy_providers}
use pre_code.LlmRouter.Pricing.{ModelInfo, contains, default_model_for}
use pre_code.LlmRouter.Tasks.{Task}
use pre_code.LlmRouter.Choice.{FallbackOption, RoutingDecision, route}
use pre_code.LlmRouter.Attempts.{
  ChatRequest, Provider, ModelRouter, Readings, request_of, called, gate, gated, consulted,
  attempt_with, attempt, refuses, try_all, first_of, response, ranked, is_tried, remaining,
  executed, execute_with_failover,
}
use pre_code.LlmRouter.Attempts.Effects.{Keeps, attempt-Keeps, try_all-Keeps}

-- The provider is registered, always answers, and is not refused by its breaker; there is no
-- budget.
pub record Ready (name : String) (p : Provider) (r : ModelRouter) : Type 0 where
  pub registered : lookup name r.providers ≡ some p
  pub answers : (now : ℕ) (req : ChatRequest) → is_some (p.chat now req) ≡ true
  pub admitted : refuses (lookup name r.circuit_breakers) ≡ false
  pub unguarded : r.budget ≡ none

Keeps-Ready :
    (T : String → Bool) (name : String) (p : Provider) (r r' : ModelRouter)
    → Keeps T r r'
    → T name ≡ false
    → Ready name p r
    → Ready name p r'
Keeps-Ready T name p r r' k other h = record {
  registered = ap (λ (ps : Dict Provider). lookup name ps) k.providers ∙ h.registered;
  answers = h.answers;
  admitted = ap (λ (o : Option CircuitBreaker). refuses o) (k.breakers name other) ∙ h.admitted;
  unguarded = k.unguarded h.unguarded;
}

module _ (cache_key : ChatRequest → String) where
  called-answers :
      (at : Readings) (task : Task) (opt : FallbackOption) (r : ModelRouter)
      (o : Option ChatResponse)
      → is_some o ≡ true
      → is_some (response (called cache_key at task opt r o).1) ≡ true
  unfolding called response
  called-answers at task opt r none h = h
  called-answers at task opt r (some resp) h = refl

  gated-answers :
      (at : Readings) (task : Task) (opt : FallbackOption) (p : Provider) (r : ModelRouter)
      (e : Option BudgetExceededError)
      → ((now : ℕ) (req : ChatRequest) → is_some (p.chat now req) ≡ true)
      → e ≡ none
      → is_some (response (gated cache_key at task opt p r e).1) ≡ true
  unfolding gated
  gated-answers at task opt p r e answers h =
      rw h
        (called-answers at task opt r _ (answers at.called_at (request_of task opt.model r.prices)))

  gate-unguarded :
      (task : Task) (cost : ℕ) (b : Option BudgetManager) → b ≡ none → (gate task cost b).1 ≡ none
  unfolding gate
  gate-unguarded task cost b h = rw h refl

  consulted-answers :
      (at : Readings) (task : Task) (opt : FallbackOption) (p : Provider) (r : ModelRouter)
      (o : Option ChatResponse)
      → ((now : ℕ) (req : ChatRequest) → is_some (p.chat now req) ≡ true)
      → r.budget ≡ none
      → is_some (response (consulted cache_key at task opt p r o).1) ≡ true
  unfolding consulted response
  consulted-answers at task opt p r none answers h =
      gated-answers at task opt p _ _ answers (gate-unguarded task opt.est_cost r.budget h)
  consulted-answers at task opt p r (some resp) answers h = refl

  attempt-answers :
      (at : Readings) (task : Task) (opt : FallbackOption) (p : Provider) (r : ModelRouter)
      → Ready opt.provider p r
      → is_some (response (attempt cache_key at task opt r).1) ≡ true
  unfolding attempt attempt_with
  attempt-answers at task opt p r h =
      rw (h.registered, h.admitted) (consulted-answers at task opt p _ _ h.answers h.unguarded)

  first_of-answers :
      (o : Option ChatResponse) (r : ModelRouter) (rest : ModelRouter × Option ChatResponse)
      → (is_some o ≡ false → is_some rest.1 ≡ true)
      → is_some (first_of o r rest).1 ≡ true
  first_of-answers none r rest h = h refl
  first_of-answers (some resp) r rest h = refl

  try_all-answers :
      (at : ℕ → Readings) (n : ℕ) (task : Task) (opts : List FallbackOption) (name : String)
      (p : Provider) (r : ModelRouter)
      → Ready name p r
      → is_tried name opts ≡ true
      → is_some (try_all cache_key at n task opts r).1 ≡ true
  unfolding try_all is_tried
  try_all-answers at n task [] name p r h t = t
  try_all-answers at n task (opt ∷ opts) name p r h t =
      let r' = (attempt cache_key (at n) task opt r).0 in
      first_of-answers (response (attempt cache_key (at n) task opt r).1) r' _ (λ failed.
        elim (Bool-cases (str_eq opt.provider name)) [
          | inl is ↦
              (let used : opt.provider ≡ name = (eq_iff opt.provider name).0 is in
                let answered =
                  attempt-answers (at n) task opt p r
                    (subst (λ (m : String). Ready m p r) (sym used) h) in
                ground (arith, failed, answered))
          | inr other ↦
              try_all-answers at (suc n) task opts name p r'
                (Keeps-Ready (str_eq opt.provider) name p r r'
                  (attempt-Keeps cache_key (at n) task opt r) other h)
                (sym (rw other refl) ∙ t)
        ])

  remaining-is_tried :
      (opts : List FallbackOption) (prices : Dict ModelInfo) (ps : Dict Provider) (name : String)
      (p : Provider)
      → lookup name ps ≡ some p
      → is_tried name opts ≡ false
      → str_eq (default_model_for name prices) "" ≡ false
      → is_tried name (remaining opts prices ps) ≡ true
  unfolding lookup is_tried remaining
  remaining-is_tried opts prices [] name p h t m = ground (arith, h)
  remaining-is_tried opts prices ((other, q) ∷ ps) name p h t m =
      elim (Bool-cases (str_eq other name)) [
        | inl is ↦
            (let same : other ≡ name = (eq_iff other name).0 is in
              rw (same, t, m) (rw (str_eq_refl name) refl))
        | inr isnt ↦
            (let rest = remaining-is_tried opts prices ps name p (sym (rw isnt refl) ∙ h) t m in
              ground (arith, isnt, rest))
      ]

  executed-answers :
      (at : ℕ → Readings) (task : Task) (d : RoutingDecision) (name : String) (p : Provider)
      (r : ModelRouter)
      → Ready name p r
      → str_eq (default_model_for name r.prices) "" ≡ false
      → is_some (executed cache_key at task r (some d)).1 ≡ true
  unfolding executed
  executed-answers at task d name p r h m = elim (Bool-cases (is_tried name (ranked d))) [
    | inl is ↦
        first_of-answers (try_all cache_key at 0 task (ranked d) r).1 _ _
          (λ failed. ground (arith, failed, try_all-answers at 0 task (ranked d) name p r h is))
    | inr isnt ↦
        (let r' = (try_all cache_key at 0 task (ranked d) r).0 in
          let k = try_all-Keeps cache_key at 0 task (ranked d) r in
          let h' = Keeps-Ready (λ n. is_tried n (ranked d)) name p r r' k isnt h in
          first_of-answers (try_all cache_key at 0 task (ranked d) r).1 r' _ (λ failed.
            try_all-answers at (length (ranked d)) task _ name p r' h' (
              remaining-is_tried (ranked d) r'.prices r'.providers name p h'.registered isnt
                (rw (k.prices) m))))
  ]

  -- Where routing chooses a model and no budget is set: a provider that is registered and healthy,
  -- whose breaker is not open, that always answers and that has a priced model, ranked for the task or
  -- not, is enough for a response, whatever the other providers, the cache and the clock do.
  pub execute-answers :
      (at : ℕ → Readings) (task : Task) (d : RoutingDecision) (name : String) (p : Provider)
      (r : ModelRouter)
      → route r.config r.health_monitor r.prices task ≡ some d
      → contains name (get_healthy_providers r.health_monitor) ≡ true
      → Ready name p r
      → str_eq (default_model_for name r.prices) "" ≡ false
      → is_some (execute_with_failover cache_key at task r).1 ≡ true
  unfolding execute_with_failover
  execute-answers at task d name p r chosen healthy h m =
      rw chosen (executed-answers at task d name p r h m)
