-- ===== src/Agent/Run/Open.antt =====
-- The rounds of a run whose plan is longer than the loop.
use pre_code.Common.{
  ℕ, zero, suc, ◌+◌, ◌<◌, ◌≡◌, ◌≢◌, refl, Bool, true, false, ◌&&◌, Option, none, some, str_eq, ltb,
  arith, Bool-cases, inl, inr,
}
use pre_code.Agent.Machine.{
  Event, PlanStep, hitl_required, hitl_approved, step_failed, step_complete, review_passed,
  reviewing, completed, Err, transition,
}
use pre_code.Agent.World.{Env, Run, step_at}
use pre_code.Agent.Round.{
  Gate, passes, skips, rejects, Flow, continues, breaks, returns_rejected, returns_cancelled,
  panics, fire, wait_hitl_decision, decided, submit, mark_waiting, gate, perform, execute_step,
  report, reflect_on_failure, out_of_tokens, act, through, at_step, round_at, round,
}
use pre_code.Agent.Run.{Outcome, finished, follow, loop}

module _ (env : Env) (total : ℕ) where
  -- The task holds the plan of the run, of `total` steps, and no review has begun.
  pub record Open (r : Run) : Type 0 where
    pub shared : r.task.plan ≡ some r.plan
    pub of_total : r.plan.total_steps ≡ total
    pub not_reviewing : r.task.state ≢ reviewing
    pub not_completed : r.task.state ≢ completed

  fire-Open :
      (e : Event) (r : Run) (i : ℕ)
      → Open r
      → e ≢ review_passed
      → r.task.current_step ≡ i
      → i + 1 < total
      → Open (fire env e r).0 × ((fire env e r).0.task.current_step ≡ i)
  unfolding fire transition
  fire-Open e r i h n c l = ground arith

  abbrev GateOpen : ℕ → Gate → Type 0
  GateOpen i (passes r) = Open r × (r.task.current_step ≡ i)
  GateOpen i (skips r) = Open r
  GateOpen i (rejects r) = Unit

  wait_hitl_decision-Open :
      (i : ℕ) (s : PlanStep) (r : Run)
      → Open r
      → r.task.current_step ≡ i
      → i + 1 < total
      → let r' = (wait_hitl_decision env i s r).0 in Open r' × (r'.task.current_step ≡ i)
  unfolding wait_hitl_decision fire transition
  wait_hitl_decision-Open i s r h c l = ground arith

  decided-GateOpen :
      (i : ℕ) (r : Run) (goes_on : Bool)
      → Open r
      → r.task.current_step ≡ i
      → GateOpen i (decided env (r, goes_on))
  unfolding decided
  decided-GateOpen i r true h c = (h, c)
  decided-GateOpen i r false h c = tt

  submit-GateOpen :
      (i : ℕ) (s : PlanStep) (r : Run) (refused : Option Err)
      → Open r
      → r.task.current_step ≡ i
      → i + 1 < total
      → GateOpen i (submit env i s (r, refused))
  unfolding submit
  submit-GateOpen i s r (some e) h c l = h
  submit-GateOpen i s r none h c l = elim (Bool-cases env.has_queue) [
    | inl q ↦
        let (r', goes_on) = wait_hitl_decision env i s r in
        let k = wait_hitl_decision-Open i s r h c l in
        simp q (decided-GateOpen i r' goes_on k.0 k.1)
    | inr q ↦ simp q (fire-Open hitl_approved r i h (λ e. cc) c l)
  ]

  gate-GateOpen :
      (i : ℕ) (s : PlanStep) (r : Run)
      → Open r
      → r.task.current_step ≡ i
      → i + 1 < total
      → GateOpen i (gate env i s r)
  unfolding gate
  gate-GateOpen i s r h c l = elim (Bool-cases (env.knows_tool s.tool && env.needs_approval s)) [
    | inl needs ↦
        let w = fire env hitl_required (mark_waiting env i r) in
        let k =
          fire-Open hitl_required (mark_waiting env i r) i
            (record {
              shared = h.shared;
              of_total = h.of_total;
              not_reviewing = h.not_reviewing;
              not_completed = h.not_completed;
            })
            (λ e. cc) c l in
        rw needs (submit-GateOpen i s w.0 w.1 k.0 k.1 l)
    | inr free ↦ rw free (h, c)
  ]

  abbrev FlowOpen : Flow → Type 0
  FlowOpen (continues r) = Open r
  FlowOpen (breaks r) = Open r
  FlowOpen _ = Unit

  report-Open :
      (i : ℕ) (s : PlanStep) (r : Run)
      → Open r
      → r.task.current_step ≡ i
      → let r' = report env i s (perform env i s r) in Open r' × (r'.task.current_step ≡ i)
  unfolding report perform
  report-Open i s r h c = ground arith

  reflect_on_failure-Open : (i : ℕ) (r : Run) → Open r → Open (reflect_on_failure env i r)
  unfolding reflect_on_failure
  reflect_on_failure-Open i r h = ground arith

  act-FlowOpen :
      (i : ℕ) (s : PlanStep) (r : Run)
      → Open r
      → r.task.current_step ≡ i
      → i + 1 < total
      → FlowOpen (act env i s r)
  unfolding act
  act-FlowOpen i s r h c l = elim (Bool-cases (out_of_tokens env (perform env i s r).task)) [
    | inl spent ↦ rw spent (
        unfold perform in
        record {
          shared = h.shared;
          of_total = h.of_total;
          not_reviewing = h.not_reviewing;
          not_completed = h.not_completed;
        })
    | inr more ↦
        let heard = report env i s (perform env i s r) in
        let k = report-Open i s r h c in
        rw more (elim (Bool-cases (str_eq (execute_step env i s).error "")) [
          | inl good ↦ rw good (fire-Open step_complete heard i k.0 (λ e. cc) k.1 l).0
          | inr bad ↦ rw bad (
              reflect_on_failure-Open i (fire env step_failed heard).0
                (fire-Open step_failed heard i k.0 (λ e. cc) k.1 l).0)
        ])
  ]

  through-FlowOpen :
      (i : ℕ) (s : PlanStep) (g : Gate)
      → GateOpen i g
      → i + 1 < total
      → FlowOpen (through env i s g)
  unfolding through
  through-FlowOpen i s (passes r) h l = act-FlowOpen i s r h.0 h.1 l
  through-FlowOpen i s (skips r) h l = h
  through-FlowOpen i s (rejects r) h l = tt

  round_at-FlowOpen :
      (i : ℕ) (s : Option PlanStep) (r : Run)
      → Open r
      → i + 1 < total
      → FlowOpen (round_at env i s r)
  unfolding round_at
  round_at-FlowOpen i none r h l = tt
  round_at-FlowOpen i (some s) r h l =
      through-FlowOpen i s (gate env i s (at_step env i r))
        (gate-GateOpen i s (at_step env i r)
          (unfold at_step in
            record {
              shared = h.shared;
              of_total = h.of_total;
              not_reviewing = h.not_reviewing;
              not_completed = h.not_completed;
            })
          (unfold at_step in refl) l)
        l

  round-FlowOpen : (i : ℕ) (r : Run) → Open r → i + 1 < total → FlowOpen (round env i r)
  unfolding round
  round-FlowOpen i r h l = elim (Bool-cases (env.context_done i)) [
    | inl done ↦ rw done tt
    | inr live ↦ rw live (round_at-FlowOpen i (step_at r.plan.steps i) r h l)
  ]

  abbrev pub OutcomeOpen : Outcome → Type 0
  OutcomeOpen (finished r) = Open r
  OutcomeOpen _ = Unit

  follow-OutcomeOpen :
      (go_on : Run → Outcome) (f : Flow)
      → ((r : Run) → Open r → OutcomeOpen (go_on r))
      → FlowOpen f
      → OutcomeOpen (follow env go_on f)
  unfolding follow
  follow-OutcomeOpen go_on (continues r) g h = g r h
  follow-OutcomeOpen go_on (breaks r) g h = h
  follow-OutcomeOpen go_on (returns_rejected r) g h = tt
  follow-OutcomeOpen go_on (returns_cancelled r) g h = tt
  follow-OutcomeOpen go_on (panics r) g h = tt

  pub loop-OutcomeOpen : (n i : ℕ) (r : Run) → Open r → i + n < total → OutcomeOpen (loop env n i r)
  unfolding loop
  loop-OutcomeOpen zero i r h l = h
  loop-OutcomeOpen (suc n) i r h l = elim (Bool-cases (ltb i r.plan.total_steps)) [
    | inl more ↦ rw more (
        follow-OutcomeOpen (λ r'. loop env n (i + 1) r') (round env i r)
          (λ r' k. loop-OutcomeOpen n (i + 1) r' k (omega arith))
          (round-FlowOpen i r h (omega arith)))
    | inr over ↦ rw over h
  ]
