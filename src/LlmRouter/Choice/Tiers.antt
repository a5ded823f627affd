-- ===== src/LlmRouter/Choice/Tiers.antt =====
-- The tiers of models with the built-in prices.
use pre_code.Common.{
  ℕ, ◌≤◌, ◌≡◌, refl, sym, ◌∙◌, subst, ◌⊎◌, true, some, is_some, List, [], ◌∷◌, String, Dict, lookup,
  str_eq, eq_iff, leb, if◌then◌else◌, length-sort_by, length-append, All, length, arith, Bool-cases,
  inl, inr,
}
use pre_code.ProviderHealth.{HealthMonitor, get_healthy_providers}
use pre_code.LlmRouter.Float
use pre_code.LlmRouter.Pricing.{ModelInfo, contains, supports, supports_all, price_table}
use pre_code.LlmRouter.Tasks.{Task, classify_complexity, get_models_for_complexity}
use pre_code.LlmRouter.Choice.{
  RouterConfig, RoutingCandidate, added, add_candidate, add_all, models_to_consider, or_default,
  candidates, cheaper, rank_candidates, decide, route,
}

-- Every capability is this one.
abbrev pub Only : String → List String → Type 0
Only cap caps = All (λ c. str_eq c cap ≡ true) caps

Only-supports_all :
    (cap : String) (info : ModelInfo) (caps : List String)
    → supports cap info ≡ true
    → Only cap caps
    → supports_all info caps ≡ true
unfolding supports_all
Only-supports_all cap info [] s o = refl
Only-supports_all cap info (c ∷ caps) s o =
    rw ((eq_iff c cap).0 o.0, s) (Only-supports_all cap info caps s o.1)

module _ (config : RouterConfig) (h : HealthMonitor) (prices : Dict ModelInfo) (task : Task) where
  -- A model that is priced, healthy and capable.
  record Fits (model : String) : Type 0 where
    info : ModelInfo
    found : lookup model prices ≡ some info
    fit : contains info.provider (get_healthy_providers h) ≡ true
    capable : supports_all info task.required_capabilities ≡ true

  add_candidate-some :
      (model : String) → Fits model → length (add_candidate config h prices task model) ≡ 1
  unfolding add_candidate added
  add_candidate-some model f = rw (f.found, f.fit, f.capable) refl

  add_all-some :
      (model : String) (models : List String)
      → Fits model
      → contains model models ≡ true
      → 1 ≤ length (add_all config h prices task models)
  unfolding add_all contains
  add_all-some model [] f m = ground (arith, m)
  add_all-some model (other ∷ models) f m = elim (Bool-cases (str_eq other model)) [
    | inl is ↦
        (let f' = subst (λ (s : String). Fits s) (sym ((eq_iff other model).0 is)) f in
          omega (
            arith,
            length-append (add_candidate config h prices task other)
                (add_all config h prices task models),
            add_candidate-some other f',
          ))
    | inr isnt ↦ omega (
      arith,
      length-append (add_candidate config h prices task other)
          (add_all config h prices task models),
      add_all-some model models f (sym (rw isnt refl) ∙ m),
    )
  ]

  or_default-some :
      (cs : List RoutingCandidate) → 1 ≤ length cs → 1 ≤ length (or_default config h prices task cs)
  unfolding or_default
  or_default-some [] l = ground (arith, l)
  or_default-some (c ∷ cs) l = l

  decide-some : (cs : List RoutingCandidate) → 1 ≤ length cs → is_some (decide cs) ≡ true
  unfolding decide
  decide-some [] l = ground (arith, l)
  decide-some (c ∷ cs) l = refl

  considered :
      (model : String)
      → contains model (get_models_for_complexity (classify_complexity task)) ≡ true
      → contains model (models_to_consider task) ≡ true
  unfolding models_to_consider contains
  considered model m = ground (arith, m)

  route-some :
      (model : String)
      → Fits model
      → contains model (get_models_for_complexity (classify_complexity task)) ≡ true
      → is_some (route config h prices task) ≡ true
  unfolding route rank_candidates candidates
  route-some model f m = decide-some (rank_candidates config h prices task) (
      omega (
        arith,
        length-sort_by cheaper (candidates config h prices task),
        or_default-some (add_all config h prices task (models_to_consider task))
            (add_all-some model (models_to_consider task) f (considered model m)),
      ))

module _ (config : RouterConfig) (h : HealthMonitor) (task : Task) where
  -- The built-in models of two providers, one for each tier.
  openai_model : ℕ → String
  openai_model c =
      if leb c Float.p30 then "gpt-4o-mini" else if leb c Float.p60 then "gpt-4o" else "gpt-4.5"

  anthropic_model : ℕ → String
  anthropic_model c =
      if leb c Float.p30
      then "claude-haiku-3.5"
      else if leb c Float.p60
      then "claude-sonnet-4-20250514"
      else "claude-opus-4"

  tools-Fits :
      (model : String) (info : ModelInfo)
      → lookup model price_table ≡ some info
      → contains info.provider (get_healthy_providers h) ≡ true
      → supports "tools" info ≡ true
      → Only "tools" task.required_capabilities
      → Fits config h price_table task model
  tools-Fits model info found fit tools o = record {
    info = info;
    found = found;
    fit = fit;
    capable = Only-supports_all "tools" info task.required_capabilities tools o;
  }

  openai-Fits :
      (c : ℕ)
      → contains "openai" (get_healthy_providers h) ≡ true
      → Only "tools" task.required_capabilities
      → Fits config h price_table task (openai_model c)
  unfolding openai_model lookup price_table supports contains
  openai-Fits c fit o = elim (Bool-cases (leb c Float.p30)) [
    | inl is ↦ rw is (tools-Fits _ _ refl fit refl o)
    | inr isnt ↦ rw isnt (elim (Bool-cases (leb c Float.p60)) [
      | inl is ↦ rw is (tools-Fits _ _ refl fit refl o)
      | inr isnt' ↦ rw isnt' (tools-Fits _ _ refl fit refl o)
    ])
  ]

  anthropic-Fits :
      (c : ℕ)
      → contains "anthropic" (get_healthy_providers h) ≡ true
      → Only "tools" task.required_capabilities
      → Fits config h price_table task (anthropic_model c)
  unfolding anthropic_model lookup price_table supports contains
  anthropic-Fits c fit o = elim (Bool-cases (leb c Float.p30)) [
    | inl is ↦ rw is (tools-Fits _ _ refl fit refl o)
    | inr isnt ↦ rw isnt (elim (Bool-cases (leb c Float.p60)) [
      | inl is ↦ rw is (tools-Fits _ _ refl fit refl o)
      | inr isnt' ↦ rw isnt' (tools-Fits _ _ refl fit refl o)
    ])
  ]

  tier-contains :
      (c : ℕ)
      → (contains (openai_model c) (get_models_for_complexity c) ≡ true)
        × (contains (anthropic_model c) (get_models_for_complexity c) ≡ true)
  unfolding openai_model anthropic_model get_models_for_complexity contains
  tier-contains c = elim (Bool-cases (leb c Float.p30)) [
    | inl is ↦ rw is (refl, refl)
    | inr isnt ↦ rw isnt (elim (Bool-cases (leb c Float.p60)) [
      | inl is ↦ rw is (refl, refl)
      | inr isnt' ↦ rw isnt' (elim (Bool-cases (leb c Float.p85)) [
        | inl is ↦ rw is (refl, refl)
        | inr isnt'' ↦ rw isnt'' (refl, refl)
      ])
    ])
  ]

  -- With the built-in prices: where OpenAI or Anthropic is healthy and the task requires no
  -- capability but "tools", routing chooses a model, whatever the complexity of the task, its target
  -- and the configuration are.
  pub route_tools :
      (contains "openai" (get_healthy_providers h) ≡ true)
        ⊎ (contains "anthropic" (get_healthy_providers h) ≡ true)
      → Only "tools" task.required_capabilities
      → is_some (route config h price_table task) ≡ true
  route_tools (inl fit) o =
      let c = classify_complexity task in
      route-some config h price_table task (openai_model c) (openai-Fits c fit o)
        (tier-contains c).0
  route_tools (inr fit) o =
      let c = classify_complexity task in
      route-some config h price_table task (anthropic_model c) (anthropic-Fits c fit o)
        (tier-contains c).1
