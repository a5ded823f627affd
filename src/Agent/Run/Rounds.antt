-- ===== src/Agent/Run/Rounds.antt =====
-- The rounds of a run that nothing disturbs.
use mathlib.Core.Option.{some-injective}
use pre_code.Common.{
  All, keep, subst, ℕ, zero, suc, ◌+◌, ◌-◌, ◌≤◌, ◌<◌, ◌≡◌, refl, ap, ◌∙◌, Bool, true, false, Option,
  none, some, List, [], ◌∷◌, str_eq, ltb, arith, if◌then◌else◌, Bool-cases, inl, inr, length,
  length-append, dec_lt,
}
use pre_code.Agent.Machine.{
  PlanStep, Plan, step_failed, step_complete, reviewing, completed, executing, transition,
}
use pre_code.Agent.World.{Env, Run, Reply, step_at, overwrite, parse_plan, count_tokens}
use pre_code.Agent.Round.{
  passes, Flow, continues, breaks, returns_rejected, returns_cancelled, panics, fire, gate, perform,
  execute_step, report, reflect_on_failure, adjust, reflected, out_of_tokens, act, through, at_step,
  round_at, round,
}
use pre_code.Agent.Run.{
  Outcome, finished, rejected_by_human, context_cancelled, not_started, panicked, follow, loop,
  conclude, concluded,
}

length-overwrite : (k : ℕ) (vs ss : List PlanStep) → length (overwrite k vs ss) ≡ length ss
unfolding overwrite
length-overwrite k vs [] = refl
length-overwrite zero [] (s ∷ ss) = refl
length-overwrite zero (v ∷ vs) (s ∷ ss) = ap suc (length-overwrite zero vs ss)
length-overwrite (suc k) vs (s ∷ ss) = ap suc (length-overwrite k vs ss)

step_at-below :
    (ss : List PlanStep) (i : ℕ) → i < length ss → (s : PlanStep) × (step_at ss i ≡ some s)
step_at-below [] i h = absurd (omega arith)
step_at-below (s ∷ ss) zero h = (s, refl)
step_at-below (s ∷ ss) (suc i) h = step_at-below ss i (omega arith)

overwrite-All :
    (P : PlanStep → Type 0) (k : ℕ) (vs ss : List PlanStep)
    → All P vs
    → All P ss
    → All P (overwrite k vs ss)
unfolding overwrite
overwrite-All P k vs [] h g = tt
overwrite-All P zero [] (s ∷ ss) h g = g
overwrite-All P zero (v ∷ vs) (s ∷ ss) h g = (h.0, overwrite-All P zero vs ss h.1 g.1)
overwrite-All P (suc k) vs (s ∷ ss) h g = (g.0, overwrite-All P k vs ss h g.1)

step_at-All :
    (P : PlanStep → Type 0) (ss : List PlanStep) (i : ℕ) (s : PlanStep)
    → All P ss
    → step_at ss i ≡ some s
    → P s
step_at-All P [] i s h e = absurd (ground (arith, e))
step_at-All P (x ∷ ss) zero s h e = subst P (some-injective _ _ e) h.0
step_at-All P (x ∷ ss) (suc i) s h e = step_at-All P ss i s h.1 e

-- The tool of the step is one that the agent has.
abbrev pub Known : Env → PlanStep → Type 0
Known env s = env.knows_tool s.tool ≡ true

keep-Known :
    (env : Env) (ss : List PlanStep) → All (Known env) (keep (λ s. env.knows_tool s.tool) ss)
keep-Known env [] = tt
keep-Known env (s ∷ ss) = elim (Bool-cases (env.knows_tool s.tool)) [
  | inl is ↦ rw is (is, keep-Known env ss)
  | inr isnt ↦ rw isnt (keep-Known env ss)
]

-- Nothing stops the loop: no step needs approval, the context is not done, and the steps whose tools
-- the agent has succeed as the verdicts say, whatever the LLM makes of the plan.
pub record Undisturbed (env : Env) (verdict : ℕ → Bool) : Type 0 where
  pub free : (s : PlanStep) → env.needs_approval s ≡ false
  pub live : (i : ℕ) → env.context_done i ≡ false
  pub judged :
      (i : ℕ) (s : PlanStep)
      → env.knows_tool s.tool ≡ true
      → str_eq (execute_step env i s).error "" ≡ verdict i

module _ (env : Env) (verdict : ℕ → Bool) (k base : ℕ) (u : Undisturbed env verdict) where
  -- Before round `i` of a plan of `k + 1` steps.
  pub record Going (i : ℕ) (r : Run) : Type 0 where
    pub shared : r.task.plan ≡ some r.plan
    pub of_total : r.plan.total_steps ≡ suc k
    pub of_length : length r.plan.steps ≡ suc k
    pub state : r.task.state ≡ executing
    pub unlimited : r.task.max_tokens ≡ 0
    pub retries : r.task.retry_count + (suc k - i) < r.task.max_retries
    pub ran : length r.task.steps ≡ base + i
    pub known : All (Known env) r.plan.steps

  pub record Ended (r : Run) : Type 0 where
    state : r.task.state ≡ (if verdict k then reviewing else executing)
    over : r.plan.total_steps ≡ suc k
    ran : length r.task.steps ≡ base + suc k

  -- What a round leads to.
  abbrev Next : ℕ → Run → Type 0
  Next i r = (i < k → Going (i + 1) r) × (i ≡ k → Ended r)

  -- What asking for other steps keeps.
  abbrev Kept : Run → Run → Type 0
  Kept r r' =
      (length r'.plan.steps ≡ length r.plan.steps)
      × (r'.plan.total_steps ≡ r.plan.total_steps)
      × (r.task.plan ≡ some r.plan → r'.task.plan ≡ some r'.plan)
      × (r'.task.state ≡ r.task.state)
      × (r'.task.max_tokens ≡ r.task.max_tokens)
      × (r'.task.retry_count ≡ r.task.retry_count)
      × (r'.task.max_retries ≡ r.task.max_retries)
      × (r'.task.steps ≡ r.task.steps)
      × (All (Known env) r.plan.steps → All (Known env) r'.plan.steps)

  adjust-Kept : (i : ℕ) (p : Option Plan) (r : Run) → Kept r (adjust env i p r)
  unfolding adjust
  adjust-Kept i none r = (refl, refl, λ h. h, refl, refl, refl, refl, refl, λ h. h)
  adjust-Kept i (some p) r = (
    length-overwrite (i + 1) _ r.plan.steps,
    refl,
    λ h. refl,
    refl,
    refl,
    refl,
    refl,
    refl,
    λ h. overwrite-All (Known env) (i + 1) _ r.plan.steps (keep-Known env p.steps) h,
  )

  reflected-Kept : (i : ℕ) (o : Option Reply) (r : Run) → Kept r (reflected env i o r)
  unfolding reflected
  reflected-Kept i none r = (refl, refl, λ h. h, refl, refl, refl, refl, refl, λ h. h)
  reflected-Kept i (some reply) r =
      adjust-Kept i (parse_plan reply.parsed) (record r { task = count_tokens reply r.task })

  reflect_on_failure-Kept : (i : ℕ) (r : Run) → Kept r (reflect_on_failure env i r)
  unfolding reflect_on_failure
  reflect_on_failure-Kept i r = elim (Bool-cases (ltb (i + 1) r.plan.total_steps)) [
    | inl more ↦ rw more (reflected-Kept i (env.reflection i) r)
    | inr last ↦ rw last (refl, refl, λ h. h, refl, refl, refl, refl, refl, λ h. h)
  ]

  -- After the tool has run, before the event of its result.
  record Heard (i : ℕ) (r : Run) : Type 0 where
    shared : r.task.plan ≡ some r.plan
    of_total : r.plan.total_steps ≡ suc k
    of_length : length r.plan.steps ≡ suc k
    state : r.task.state ≡ executing
    current : r.task.current_step ≡ i
    unlimited : r.task.max_tokens ≡ 0
    retries : r.task.retry_count + (suc k - i) < r.task.max_retries
    ran : length r.task.steps ≡ base + suc i
    known : All (Known env) r.plan.steps

  report-Heard :
      (i : ℕ) (s : PlanStep) (r : Run)
      → Going i r
      → let r' = at_step env i r in
        Heard i (report env i s (perform env i s r'))
        × (out_of_tokens env (perform env i s r').task ≡ false)
  unfolding report perform at_step
  report-Heard i s r h = ground (arith, length-append r.task.steps (execute_step env i s ∷ []))

  fire-step_complete-Next :
      (i : ℕ) (r : Run) → Heard i r → verdict i ≡ true → Next i (fire env step_complete r).0
  unfolding fire transition
  fire-step_complete-Next i r h v = (λ l. ground arith, λ e. ground arith)

  fire-step_failed-Next :
      (i : ℕ) (r : Run) → Heard i r → verdict i ≡ false → i ≤ k → Next i (fire env step_failed r).0
  unfolding fire transition
  fire-step_failed-Next i r h v l = (λ l. ground arith, λ e. ground arith)

  Next-Kept : (i : ℕ) (r r' : Run) → Kept r r' → Next i r → Next i r'
  Next-Kept i r r' same h = (λ l. ground (arith, h.0 l), λ e. ground (arith, h.1 e))

  abbrev FlowNext : ℕ → Flow → Type 0
  FlowNext i (continues r) = Next i r
  FlowNext i _ = ⊥

  act-FlowNext :
      (i : ℕ) (s : PlanStep) (r : Run)
      → Going i r
      → i ≤ k
      → Known env s
      → FlowNext i (act env i s (at_step env i r))
  unfolding act
  act-FlowNext i s r h l known =
      let r' = at_step env i r in
      let heard = report-Heard i s r h in
      rw heard.1 (elim (Bool-cases (verdict i)) [
        | inl good ↦
            rw (u.judged i s known ∙ good)
              (fire-step_complete-Next i (report env i s (perform env i s r')) heard.0 good)
        | inr bad ↦ rw (u.judged i s known ∙ bad) (
            Next-Kept i (fire env step_failed (report env i s (perform env i s r'))).0 _
              (reflect_on_failure-Kept i
                (fire env step_failed (report env i s (perform env i s r'))).0)
              (fire-step_failed-Next i (report env i s (perform env i s r')) heard.0 bad l))
      ])

  gate_free : (i : ℕ) (s : PlanStep) (r : Run) → gate env i s r ≡ passes r
  unfolding gate
  gate_free i s r = ground (arith, u.free s)

  round-FlowNext : (i : ℕ) (r : Run) → Going i r → i ≤ k → FlowNext i (round env i r)
  unfolding round round_at through
  round-FlowNext i r h l =
      let (s, e) = step_at-below r.plan.steps i (omega arith) in
      rw (u.live i, e, gate_free i s (at_step env i r))
        (act-FlowNext i s r h l (step_at-All (Known env) r.plan.steps i s h.known e))

  abbrev pub Verdict : Outcome → Type 0
  Verdict (finished r) =
      (r.task.state ≡ (if verdict k then completed else executing))
      × (length r.task.steps ≡ base + suc k)
  Verdict _ = ⊥

  -- What the loop leaves, from before round `i`.
  abbrev pub LoopEnded : Outcome → Type 0
  LoopEnded (finished r) = Ended r
  LoopEnded _ = ⊥

  loop-over : (n i : ℕ) (r : Run) → Ended r → k < i → LoopEnded (loop env n i r)
  unfolding loop
  loop-over zero i r h l = h
  loop-over (suc n) i r h l =
      let stop : ltb i r.plan.total_steps ≡ false = ground (arith, h.over) in rw stop h

  follow-LoopEnded :
      (i : ℕ) (go_on : Run → Outcome) (f : Flow)
      → i ≤ k
      → ((r : Run) → Going (i + 1) r → i < k → LoopEnded (go_on r))
      → ((r : Run) → Ended r → i ≡ k → LoopEnded (go_on r))
      → FlowNext i f
      → LoopEnded (follow env go_on f)
  unfolding follow
  follow-LoopEnded i go_on (continues r) l more last h = elim (dec_lt i k) [
    | yes p ↦ more r (h.0 p) p
    | no p ↦ last r (h.1 (omega arith)) (omega arith)
  ]
  follow-LoopEnded i go_on (breaks r) l more last h = absurd h
  follow-LoopEnded i go_on (returns_rejected r) l more last h = absurd h
  follow-LoopEnded i go_on (returns_cancelled r) l more last h = absurd h
  follow-LoopEnded i go_on (panics r) l more last h = absurd h

  pub loop-LoopEnded :
      (n i : ℕ) (r : Run) → Going i r → i ≤ k → k < i + n → LoopEnded (loop env n i r)
  unfolding loop
  loop-LoopEnded zero i r h l m = absurd (omega arith)
  loop-LoopEnded (suc n) i r h l m =
      let go : ltb i r.plan.total_steps ≡ true = ground (arith, h.of_total) in
      rw go (
        follow-LoopEnded i (λ r'. loop env n (i + 1) r') (round env i r) l
          (λ r' g p. loop-LoopEnded n (i + 1) r' g (omega arith) (omega arith))
          (λ r' g p. loop-over n (i + 1) r' g (omega arith)) (round-FlowNext i r h l))

  conclude-Verdict :
      (r : Run)
      → Ended r
      → let t = (conclude env r).task in
        (t.state ≡ (if verdict k then completed else executing)) × (length t.steps ≡ base + suc k)
  unfolding conclude fire transition
  conclude-Verdict r h = ground arith

  pub concluded-Verdict : (o : Outcome) → LoopEnded o → Verdict (concluded env o)
  unfolding conclude
  concluded-Verdict (finished r) h = conclude-Verdict r h
  concluded-Verdict (rejected_by_human r) h = absurd h
  concluded-Verdict (context_cancelled r) h = absurd h
  concluded-Verdict (not_started t) h = absurd h
  concluded-Verdict (panicked r) h = absurd h
