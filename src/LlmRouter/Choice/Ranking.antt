-- ===== src/LlmRouter/Choice/Ranking.antt =====
-- What the router chooses.
use pre_code.Common.{
  ℕ, zero, suc, ◌≤◌, ◌≡◌, refl, sym, ◌∙◌, subst, true, Option, none, some, List, [], ◌∷◌, ◌++◌,
  String, Dict, lookup, str_eq, ltb, not, ◌&&◌, sort_by-All, sort_by-count, sort_by-Ascending,
  Ascending, All, length, count_if, arith, Bool-cases, inl, inr,
}
use mathlib.Core.Option.{some-injective}
use pre_code.ProviderHealth.{HealthMonitor, get_healthy_providers}
use pre_code.LlmRouter.Pricing.{ModelInfo, contains, supports_all, est_cost_of}
use pre_code.LlmRouter.Tasks.{Task, estimate_input_tokens}
use pre_code.LlmRouter.Choice.{
  RouterConfig, RoutingCandidate, FallbackOption, RoutingDecision, candidate_of, added,
  add_candidate, add_all, models_to_consider, or_default, candidates, cheaper, rank_candidates,
  fallbacks_of, decide, route,
}

module _ (config : RouterConfig) (h : HealthMonitor) (prices : Dict ModelInfo) (task : Task) where
  -- The model is priced and of this provider, the provider is healthy, the model has the
  -- capabilities that the task requires, and this is its estimated cost.
  pub record Viable (provider model : String) (cost : ℕ) : Type 0 where
    pub info : ModelInfo
    pub found : lookup model prices ≡ some info
    pub served : info.provider ≡ provider
    pub fit : contains provider (get_healthy_providers h) ≡ true
    pub capable : supports_all info task.required_capabilities ≡ true
    pub estimated :
        est_cost_of (estimate_input_tokens task) config.default_output_tokens info ≡ cost

  abbrev ViableCandidate : RoutingCandidate → Type 0
  ViableCandidate c = Viable c.provider c.model c.est_cost

  abbrev pub ViableFallback : FallbackOption → Type 0
  ViableFallback f = Viable f.provider f.model f.est_cost

  added-Viable :
      (model : String) (o : Option ModelInfo)
      → lookup model prices ≡ o
      → All ViableCandidate (added config h task model o)
  unfolding added candidate_of
  added-Viable model none found = tt
  added-Viable model (some info) found =
      elim (Bool-cases (contains info.provider (get_healthy_providers h))) [
        | inr unfit ↦ rw unfit tt
        | inl fit ↦ rw fit (elim (Bool-cases (supports_all info task.required_capabilities)) [
          | inr incapable ↦ rw incapable tt
          | inl capable ↦ rw capable (
            record {
              info = info;
              found = found;
              served = refl;
              fit = fit;
              capable = capable;
              estimated = refl;
            },
            tt,
          )
        ])
      ]

  All-append :
      (P : RoutingCandidate → Type 0) (cs ds : List RoutingCandidate)
      → All P cs
      → All P ds
      → All P (cs ++ ds)
  All-append P [] ds a b = b
  All-append P (c ∷ cs) ds a b = (a.0, All-append P cs ds a.1 b)

  add_all-Viable :
      (models : List String) → All ViableCandidate (add_all config h prices task models)
  unfolding add_all add_candidate
  add_all-Viable [] = tt
  add_all-Viable (model ∷ models) =
      All-append ViableCandidate _ _ (added-Viable model (lookup model prices) refl)
        (add_all-Viable models)

  or_default-Viable :
      (cs : List RoutingCandidate)
      → All ViableCandidate cs
      → All ViableCandidate (or_default config h prices task cs)
  unfolding or_default add_candidate
  or_default-Viable [] a =
      elim (Bool-cases (
        not (str_eq config.default_model "")
        && not (str_eq config.default_model task.target_model))) [
          | inl is ↦
              rw is (added-Viable config.default_model (lookup config.default_model prices) refl)
          | inr isnt ↦ rw isnt tt
        ]
  or_default-Viable (c ∷ cs) a = a

  ranked-Viable : All ViableCandidate (rank_candidates config h prices task)
  unfolding rank_candidates candidates
  ranked-Viable =
      sort_by-All cheaper ViableCandidate (candidates config h prices task)
        (or_default-Viable _ (add_all-Viable (models_to_consider task)))

  ranked-Ascending :
      Ascending (λ (c : RoutingCandidate). c.est_cost) (rank_candidates config h prices task)
  unfolding rank_candidates cheaper
  ranked-Ascending =
      sort_by-Ascending cheaper (λ (c : RoutingCandidate). c.est_cost)
        (λ c d less. ground (arith, less)) (λ c d less. ground (arith, less))
        (candidates config h prices task)

  -- A decision on these candidates.
  pub record Good (cs : List RoutingCandidate) (d : RoutingDecision) : Type 0 where
    pub viable : Viable d.provider d.model d.est_cost
    pub cheapest : count_if (λ c. ltb c.est_cost d.est_cost) cs ≡ 0
    pub fallbacks_viable : All ViableFallback d.fallbacks
    pub few : length d.fallbacks ≤ 3
    pub dearer : All (λ (f : FallbackOption). d.est_cost ≤ f.est_cost) d.fallbacks

  fallbacks_of-All :
      (P : FallbackOption → Type 0) (n : ℕ) (cs : List RoutingCandidate)
      → All
          (λ (c : RoutingCandidate).
            P (record { provider = c.provider; model = c.model; est_cost = c.est_cost }))
          cs
      → All P (fallbacks_of n cs)
  unfolding fallbacks_of
  fallbacks_of-All P n [] a = tt
  fallbacks_of-All P zero (c ∷ cs) a = tt
  fallbacks_of-All P (suc n) (c ∷ cs) a = (a.0, fallbacks_of-All P n cs a.1)

  length-fallbacks_of : (n : ℕ) (cs : List RoutingCandidate) → length (fallbacks_of n cs) ≤ n
  unfolding fallbacks_of
  length-fallbacks_of n [] = omega arith
  length-fallbacks_of zero (c ∷ cs) = omega arith
  length-fallbacks_of (suc n) (c ∷ cs) = omega (arith, length-fallbacks_of n cs)

  none_cheaper :
      (cost : ℕ) (cs : List RoutingCandidate)
      → All (λ (c : RoutingCandidate). cost ≤ c.est_cost) cs
      → count_if (λ c. ltb c.est_cost cost) cs ≡ 0
  none_cheaper cost [] a = refl
  none_cheaper cost (c ∷ cs) a = ground (arith, a.0, none_cheaper cost cs a.1)

  decide-Good :
      (cs : List RoutingCandidate) (d : RoutingDecision)
      → All ViableCandidate cs
      → Ascending (λ (c : RoutingCandidate). c.est_cost) cs
      → decide cs ≡ some d
      → Good cs d
  unfolding decide
  decide-Good [] d a b e = ground (arith, e)
  decide-Good (c ∷ cs) d a b e =
      subst (λ (d' : RoutingDecision). Good (c ∷ cs) d') (some-injective _ _ e)
        (record {
          viable = a.0;
          cheapest = ground (arith, none_cheaper c.est_cost cs b.0);
          fallbacks_viable = fallbacks_of-All ViableFallback 3 cs a.1;
          few = length-fallbacks_of 3 cs;
          dearer = fallbacks_of-All (λ (f : FallbackOption). c.est_cost ≤ f.est_cost) 3 cs b.0;
        })

  -- When routing chooses a model: it is priced, its provider is healthy, it has every capability
  -- that the task requires, and no candidate has a lower estimated cost; the fallbacks, three at
  -- most, are such models too and cost no less.
  pub route-Good :
      (d : RoutingDecision)
      → route config h prices task ≡ some d
      → Good (candidates config h prices task) d
  unfolding route rank_candidates
  route-Good d e =
      let g =
        decide-Good (rank_candidates config h prices task) d ranked-Viable ranked-Ascending e in
      record {
        viable = g.viable;
        cheapest =
            sym (
              sort_by-count cheaper (λ c. ltb c.est_cost d.est_cost)
                (candidates config h prices task))
            ∙ g.cheapest;
        fallbacks_viable = g.fallbacks_viable;
        few = g.few;
        dearer = g.dearer;
      }
