-- ===== src/LlmRouter/Attempts/Again.antt =====
-- A task that is executed again while its response is in the cache.
use pre_code.Common.{
  ℕ, ◌+◌, ◌≤◌, ◌≡◌, refl, sym, ◌∙◌, ap, subst, false, Option, none, some, [], String, Dict, lookup,
  lookup-insert, str_eq_refl, Bool-cases, inl, inr, arith,
}
use pre_code.Breaker.{CircuitBreaker, execute}
use pre_code.Breaker.Recovery.{execute-not_open}
use pre_code.LlmCache.{ChatResponse, InMemoryCache, get, set}
use pre_code.LlmCache.Calls.{calls, set-get, get-ttl}
use pre_code.Budget.{BudgetExceededError}
use pre_code.LlmRouter.Tasks.{Task}
use pre_code.LlmRouter.Choice.{FallbackOption}
use pre_code.LlmRouter.Attempts.{
  ChatRequest, Provider, ModelRouter, Readings, Outcome, hit, answered, request_of, tell, told,
  called, gated, consult, consulted, store, attempt_with, attempt, refuses,
}
use pre_code.LlmRouter.Attempts.Effects.{attempt-Keeps}

told-admits :
    (at : Readings) (name : String) (cbs : Dict CircuitBreaker) (o : Option CircuitBreaker)
    → lookup name cbs ≡ o
    → refuses o ≡ false
    → refuses (lookup name (told at false name cbs o)) ≡ false
unfolding told refuses
told-admits at name cbs none e h = rw e refl
told-admits at name cbs (some cb) e h =
    rw
      (
        lookup-insert name name (execute (λ c. c) at.told_at at.settled_at false cb).0 cbs,
        str_eq_refl name,
      )
      (execute-not_open at.told_at at.settled_at cb h)

module _ (cache_key : ChatRequest → String) where
  -- The next attempt is served from the cache.
  record Warm (task : Task) (opt : FallbackOption) (key : String) (now : ℕ) (resp : ChatResponse)
      (r : ModelRouter) : Type 0 where
    provider : Provider
    registered : lookup opt.provider r.providers ≡ some provider
    admitted : refuses (lookup opt.provider r.circuit_breakers) ≡ false
    keyed : cache_key (request_of task opt.model r.prices) ≡ key
    cache : InMemoryCache
    kept : r.cache ≡ some cache
    found : (get now key cache).1 ≡ some (record resp { cost = 0; latency = 0 })

  called-Warm :
      (at : Readings) (task : Task) (opt : FallbackOption) (p : Provider) (now : ℕ)
      (resp : ChatResponse) (c : InMemoryCache) (r : ModelRouter) (o : Option ChatResponse)
      → lookup opt.provider r.providers ≡ some p
      → refuses (lookup opt.provider r.circuit_breakers) ≡ false
      → r.cache ≡ some c
      → now ≤ at.stored_at + c.ttl
      → (called cache_key at task opt r o).1 ≡ answered resp
      → Warm task opt
          (cache_key (request_of task opt.model r.prices))
          now
          resp
          (called cache_key at task opt r o).0
  unfolding called tell calls
  called-Warm at task opt p now resp c r none reg adm kept time e = ground (arith, e)
  called-Warm at task opt p now resp c r (some answer) reg adm kept time e =
      let key = cache_key (request_of task opt.model r.prices) in
      let same : answer ≡ resp = ap (λ (o : Outcome). elim o [ answered a ↦ a | _ ↦ answer ]) e in
      subst
        (λ (a : ChatResponse).
          Warm task opt key now a (called cache_key at task opt r (some answer)).0)
        same
        (record {
          provider = p;
          registered = reg;
          admitted = told-admits at opt.provider r.circuit_breakers _ refl adm;
          keyed = refl;
          cache = set at.stored_at key (some answer) c;
          kept = ap (λ (o : Option InMemoryCache). store at.stored_at key answer o) kept;
          found = (set-get at.stored_at now key answer [] c tt).0 time;
        })

  gated-Warm :
      (at : Readings) (task : Task) (opt : FallbackOption) (p : Provider) (now : ℕ)
      (resp : ChatResponse) (c : InMemoryCache) (r : ModelRouter) (o : Option BudgetExceededError)
      → lookup opt.provider r.providers ≡ some p
      → refuses (lookup opt.provider r.circuit_breakers) ≡ false
      → r.cache ≡ some c
      → now ≤ at.stored_at + c.ttl
      → (gated cache_key at task opt p r o).1 ≡ answered resp
      → Warm task opt
          (cache_key (request_of task opt.model r.prices))
          now
          resp
          (gated cache_key at task opt p r o).0
  unfolding gated
  gated-Warm at task opt p now resp c r none reg adm kept time e =
      called-Warm at task opt p now resp c r _ reg adm kept time e
  gated-Warm at task opt p now resp c r (some x) reg adm kept time e = ground (arith, e)

  consulted-Warm :
      (at : Readings) (task : Task) (opt : FallbackOption) (p : Provider) (now : ℕ)
      (resp : ChatResponse) (c : InMemoryCache) (r : ModelRouter) (o : Option ChatResponse)
      → lookup opt.provider r.providers ≡ some p
      → refuses (lookup opt.provider r.circuit_breakers) ≡ false
      → r.cache ≡ some c
      → now ≤ at.stored_at + c.ttl
      → (consulted cache_key at task opt p r o).1 ≡ answered resp
      → Warm task opt
          (cache_key (request_of task opt.model r.prices))
          now
          resp
          (consulted cache_key at task opt p r o).0
  unfolding consulted
  consulted-Warm at task opt p now resp c r none reg adm kept time e =
      gated-Warm at task opt p now resp c _ _ reg adm kept time e
  consulted-Warm at task opt p now resp c r (some x) reg adm kept time e = ground (arith, e)

  attempt_with-Warm :
      (at : Readings) (task : Task) (opt : FallbackOption) (now : ℕ) (resp : ChatResponse)
      (c : InMemoryCache) (r : ModelRouter) (o : Option Provider)
      → lookup opt.provider r.providers ≡ o
      → r.cache ≡ some c
      → now ≤ at.stored_at + c.ttl
      → (attempt_with cache_key at task opt r o).1 ≡ answered resp
      → Warm task opt
          (cache_key (request_of task opt.model r.prices))
          now
          resp
          (attempt_with cache_key at task opt r o).0
  unfolding attempt_with consult
  attempt_with-Warm at task opt now resp c r none reg kept time e = ground (arith, e)
  attempt_with-Warm at task opt now resp c r (some p) reg kept time e =
      elim (Bool-cases (refuses (lookup opt.provider r.circuit_breakers))) [
        | inl is ↦ absurd (ground (arith, is, e))
        | inr adm ↦
            (let key = cache_key (request_of task opt.model r.prices) in
              let r0 = record r { cache = (consult at.looked_at key r.cache).0 } in
              let found = (consult at.looked_at key r.cache).1 in
              let e' : (consulted cache_key at task opt p r0 found).1 ≡ answered resp =
                sym (rw adm refl) ∙ e in
              let time' : now ≤ at.stored_at + (get at.looked_at key c).0.ttl =
                omega (arith, get-ttl at.looked_at key c, time) in
              rw adm (
                consulted-Warm at task opt p now resp (get at.looked_at key c).0 r0 found reg adm
                  (ap (λ (o : Option InMemoryCache). (consult at.looked_at key o).0) kept) time'
                  e'))
      ]

  Warm-hit :
      (at : Readings) (task : Task) (opt : FallbackOption) (resp : ChatResponse) (r : ModelRouter)
      → Warm task opt (cache_key (request_of task opt.model r.prices)) at.looked_at resp r
      → ((attempt cache_key at task opt r).1 ≡ hit (record resp { cost = 0; latency = 0 }))
        × ((attempt cache_key at task opt r).0.budget ≡ r.budget)
  unfolding attempt attempt_with consult consulted
  Warm-hit at task opt resp r w = rw (w.registered, w.admitted, w.kept, w.found) (refl, refl)

  -- Where the router has a cache and a provider answers an attempt: the same attempt, whose lookup
  -- comes before the stored response expires, is served from the cache, with the same response at no
  -- cost, and spends nothing.
  pub attempt_again :
      (at at' : Readings) (task : Task) (opt : FallbackOption) (resp : ChatResponse)
      (c : InMemoryCache) (r : ModelRouter)
      → r.cache ≡ some c
      → (attempt cache_key at task opt r).1 ≡ answered resp
      → at'.looked_at ≤ at.stored_at + c.ttl
      → let r' = (attempt cache_key at task opt r).0 in
        ((attempt cache_key at' task opt r').1 ≡ hit (record resp { cost = 0; latency = 0 }))
        × ((attempt cache_key at' task opt r').0.budget ≡ r'.budget)
  unfolding attempt
  attempt_again at at' task opt resp c r kept e time =
      Warm-hit at' task opt resp (attempt cache_key at task opt r).0 (
        rw ((attempt-Keeps cache_key at task opt r).prices) (
          attempt_with-Warm at task opt at'.looked_at resp c r (lookup opt.provider r.providers)
            refl kept time e))
