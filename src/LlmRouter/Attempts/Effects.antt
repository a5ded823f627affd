-- ===== src/LlmRouter/Attempts/Effects.antt =====
-- What an attempt leaves as it was.
use pre_code.Common.{
  ℕ, suc, ◌≡◌, refl, ◌∙◌, Bool, true, false, Option, none, some, List, [], ◌∷◌, String, Dict,
  lookup, lookup-insert, str_eq, Bool-cases, inl, inr, arith,
}
use pre_code.Breaker.{CircuitBreaker}
use pre_code.LlmCache.{ChatResponse}
use pre_code.Budget.{BudgetManager, BudgetExceededError}
use pre_code.LlmRouter.Tasks.{Task}
use pre_code.LlmRouter.Choice.{FallbackOption}
use pre_code.LlmRouter.Attempts.{
  ChatRequest, request_of, Provider, ModelRouter, Readings, tell, told, pay, called, gate, gated,
  consult, consulted, attempt_with, attempt, refuses, try_all, first_of, is_tried,
}

-- One router is another after attempts at the providers that satisfy `T`.
pub record Keeps (T : String → Bool) (r r' : ModelRouter) : Type 0 where
  pub providers : r'.providers ≡ r.providers
  pub prices : r'.prices ≡ r.prices
  pub unguarded : r.budget ≡ none → r'.budget ≡ none
  pub breakers :
      (name : String)
      → T name ≡ false
      → lookup name r'.circuit_breakers ≡ lookup name r.circuit_breakers

told-other :
    (at : Readings) (failed : Bool) (used name : String) (cbs : Dict CircuitBreaker)
    (o : Option CircuitBreaker)
    → str_eq used name ≡ false
    → lookup name (told at failed used cbs o) ≡ lookup name cbs
unfolding told
told-other at failed used name cbs none other = refl
told-other at failed used name cbs (some cb) other = lookup-insert used name _ cbs ∙ rw other refl

pub tell-other :
    (at : Readings) (failed : Bool) (used name : String) (cbs : Dict CircuitBreaker)
    → str_eq used name ≡ false
    → lookup name (tell at failed used cbs) ≡ lookup name cbs
unfolding tell
tell-other at failed used name cbs other =
    told-other at failed used name cbs (lookup used cbs) other

pay-none : (task : Task) (cost : ℕ) (b : Option BudgetManager) → b ≡ none → pay task cost b ≡ none
unfolding pay
pay-none task cost b h = rw h refl

gate-none :
    (task : Task) (cost : ℕ) (b : Option BudgetManager) → b ≡ none → gate task cost b ≡ (none, none)
unfolding gate
gate-none task cost b h = rw h refl

module _ (cache_key : ChatRequest → String) where
  called-Keeps :
      (at : Readings) (task : Task) (opt : FallbackOption) (r : ModelRouter)
      (o : Option ChatResponse)
      → Keeps (str_eq opt.provider) r (called cache_key at task opt r o).0
  unfolding called
  called-Keeps at task opt r none = record {
    providers = refl;
    prices = refl;
    unguarded = λ h. h;
    breakers = λ name other. tell-other at true opt.provider name r.circuit_breakers other;
  }
  called-Keeps at task opt r (some resp) = record {
    providers = refl;
    prices = refl;
    unguarded = λ h. pay-none task resp.cost r.budget h;
    breakers = λ name other. tell-other at false opt.provider name r.circuit_breakers other;
  }

  gated-Keeps :
      (at : Readings) (task : Task) (opt : FallbackOption) (p : Provider) (r : ModelRouter)
      (o : Option BudgetExceededError)
      → Keeps (str_eq opt.provider) r (gated cache_key at task opt p r o).0
  unfolding gated
  gated-Keeps at task opt p r none = called-Keeps at task opt r _
  gated-Keeps at task opt p r (some e) = record {
    providers = refl;
    prices = refl;
    unguarded = λ h. h;
    breakers = λ name other. refl;
  }

  consulted-Keeps :
      (at : Readings) (task : Task) (opt : FallbackOption) (p : Provider) (r : ModelRouter)
      (o : Option ChatResponse)
      → Keeps (str_eq opt.provider) r (consulted cache_key at task opt p r o).0
  unfolding consulted
  consulted-Keeps at task opt p r none =
      let (budget', e) = gate task opt.est_cost r.budget in
      let k = gated-Keeps at task opt p (record r { budget = budget' }) e in
      record {
        providers = k.providers;
        prices = k.prices;
        unguarded = λ h. k.unguarded (rw (gate-none task opt.est_cost r.budget h) refl);
        breakers = k.breakers;
      }
  consulted-Keeps at task opt p r (some resp) = record {
    providers = refl;
    prices = refl;
    unguarded = λ h. h;
    breakers = λ name other. refl;
  }

  attempt_with-Keeps :
      (at : Readings) (task : Task) (opt : FallbackOption) (r : ModelRouter) (o : Option Provider)
      → Keeps (str_eq opt.provider) r (attempt_with cache_key at task opt r o).0
  unfolding attempt_with
  attempt_with-Keeps at task opt r none = record {
    providers = refl;
    prices = refl;
    unguarded = λ h. h;
    breakers = λ name other. refl;
  }
  attempt_with-Keeps at task opt r (some p) =
      elim (Bool-cases (refuses (lookup opt.provider r.circuit_breakers))) [
        | inl is ↦ rw is (record {
          providers = refl;
          prices = refl;
          unguarded = λ h. h;
          breakers = λ name other. refl;
        })
        | inr isnt ↦ rw isnt (
            let (cache', found) =
              consult at.looked_at (cache_key (request_of task opt.model r.prices)) r.cache in
            let k = consulted-Keeps at task opt p (record r { cache = cache' }) found in
            record {
              providers = k.providers;
              prices = k.prices;
              unguarded = k.unguarded;
              breakers = k.breakers;
            })
      ]

  pub attempt-Keeps :
      (at : Readings) (task : Task) (opt : FallbackOption) (r : ModelRouter)
      → Keeps (str_eq opt.provider) r (attempt cache_key at task opt r).0
  unfolding attempt
  attempt-Keeps at task opt r = attempt_with-Keeps at task opt r (lookup opt.provider r.providers)

  is_tried-split :
      (opt : FallbackOption) (opts : List FallbackOption) (name : String)
      → is_tried name (opt ∷ opts) ≡ false
      → (str_eq opt.provider name ≡ false) × (is_tried name opts ≡ false)
  unfolding is_tried
  is_tried-split opt opts name h = ground (arith, h)

  Keeps-trans :
      (opt : FallbackOption) (opts : List FallbackOption) (r r' r'' : ModelRouter)
      → Keeps (str_eq opt.provider) r r'
      → Keeps (λ name. is_tried name opts) r' r''
      → Keeps (λ name. is_tried name (opt ∷ opts)) r r''
  Keeps-trans opt opts r r' r'' k l = record {
    providers = l.providers ∙ k.providers;
    prices = l.prices ∙ k.prices;
    unguarded = λ h. l.unguarded (k.unguarded h);
    breakers = λ name untried.
        (let s = is_tried-split opt opts name untried in l.breakers name s.1 ∙ k.breakers name s.0);
  }

  first_of-Keeps :
      (opt : FallbackOption) (opts : List FallbackOption) (r r' : ModelRouter)
      (o : Option ChatResponse) (rest : ModelRouter × Option ChatResponse)
      → Keeps (str_eq opt.provider) r r'
      → Keeps (λ name. is_tried name opts) r' rest.0
      → Keeps (λ name. is_tried name (opt ∷ opts)) r (first_of o r' rest).0
  first_of-Keeps opt opts r r' none rest k l = Keeps-trans opt opts r r' rest.0 k l
  first_of-Keeps opt opts r r' (some resp) rest k l = record {
    providers = k.providers;
    prices = k.prices;
    unguarded = k.unguarded;
    breakers = λ name untried. k.breakers name (is_tried-split opt opts name untried).0;
  }

  pub try_all-Keeps :
      (at : ℕ → Readings) (n : ℕ) (task : Task) (opts : List FallbackOption) (r : ModelRouter)
      → Keeps (λ name. is_tried name opts) r (try_all cache_key at n task opts r).0
  unfolding try_all
  try_all-Keeps at n task [] r = record {
    providers = refl;
    prices = refl;
    unguarded = λ h. h;
    breakers = λ name untried. refl;
  }
  try_all-Keeps at n task (opt ∷ opts) r =
      let k = attempt-Keeps (at n) task opt r in
      let l = try_all-Keeps at (suc n) task opts (attempt cache_key (at n) task opt r).0 in
      first_of-Keeps opt opts r (attempt cache_key (at n) task opt r).0 _ _ k l
