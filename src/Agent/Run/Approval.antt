-- ===== src/Agent/Run/Approval.antt =====
-- No tool that needs a human's approval runs without it.
use pre_code.Common.{
  ℕ, zero, suc, ◌+◌, ◌≡◌, refl, Bool, true, false, ◌&&◌, ◌||◌, Option, none, some, List, [], ◌∷◌,
  str_eq, ◌==◌, ltb, arith, Bool-cases, inl, inr,
}
use pre_code.Agent.Machine.{
  Event, PlanStep, Task, start, plan_ready, hitl_required, step_failed, step_complete,
  review_passed, Err,
}
use pre_code.Agent.World.{Env, Action, asked, executed, notified, Run, step_at, plan_task}
use pre_code.Agent.Round.{
  Gate, passes, skips, rejects, Flow, continues, breaks, returns_rejected, returns_cancelled,
  panics, fire, wait_hitl_decision, decided, submit, mark_waiting, gate, perform, execute_step,
  report, reflect_on_failure, out_of_tokens, act, through, at_step, round_at, round,
}
use pre_code.Agent.Run.{
  Outcome, finished, rejected_by_human, context_cancelled, not_started, panicked, follow, loop,
  conclude, concluded, blank, with_plan, begun, started, mark_started, execute_task,
}

-- The human approved in round `i`.
unfoldable pub granted : ℕ → List Action → Bool
granted i [] = false
granted i (asked j s (some status) ∷ log) = (i == j && str_eq status "approve") || granted i log
granted i (asked j s none ∷ log) = granted i log
granted i (executed j s ∷ log) = granted i log
granted i (notified old new ∷ log) = granted i log

module _ (env : Env) where
  -- Before each call of a tool that needs approval the human approved in the same round.
  abbrev pub IsApproved : List Action → Type 0
  IsApproved [] = Unit
  IsApproved (executed i s ∷ log) =
      (env.needs_approval s ≡ true → granted i log ≡ true) × IsApproved log
  IsApproved (asked i s answer ∷ log) = IsApproved log
  IsApproved (notified old new ∷ log) = IsApproved log

  fire_log :
      (e : Event) (r : Run) (i : ℕ)
      → IsApproved r.log
      → IsApproved (fire env e r).0.log × (granted i (fire env e r).0.log ≡ granted i r.log)
  unfolding fire granted
  fire_log e r i h = ground arith

  abbrev GateSafe : ℕ → PlanStep → Gate → Type 0
  GateSafe i s (passes r) =
      IsApproved r.log
      × (env.knows_tool s.tool ≡ true → env.needs_approval s ≡ true → granted i r.log ≡ true)
  GateSafe i s (skips r) = IsApproved r.log
  GateSafe i s (rejects r) = IsApproved r.log

  wait_hitl_decision-granted :
      (i : ℕ) (s : PlanStep) (r : Run)
      → IsApproved r.log
      → let (r', goes_on) = wait_hitl_decision env i s r in
        IsApproved r'.log × (goes_on ≡ true → granted i r'.log ≡ true)
  unfolding wait_hitl_decision fire granted
  wait_hitl_decision-granted i s r h = ground arith

  decided-GateSafe :
      (i : ℕ) (s : PlanStep) (r : Run) (goes_on : Bool)
      → IsApproved r.log
      → (goes_on ≡ true → granted i r.log ≡ true)
      → GateSafe i s (decided env (r, goes_on))
  unfolding decided
  decided-GateSafe i s r true h g = (h, λ _ _. g refl)
  decided-GateSafe i s r false h g = (fire_log step_failed r i h).0

  submit-GateSafe :
      (i : ℕ) (s : PlanStep) (r : Run) (refused : Option Err)
      → env.has_queue ≡ true
      → IsApproved r.log
      → GateSafe i s (submit env i s (r, refused))
  unfolding submit
  submit-GateSafe i s r (some e) q h = h
  submit-GateSafe i s r none q h =
      let (r', goes_on) = wait_hitl_decision env i s r in
      let k = wait_hitl_decision-granted i s r h in simp q (decided-GateSafe i s r' goes_on k.0 k.1)

  gate-GateSafe :
      (i : ℕ) (s : PlanStep) (r : Run)
      → env.has_queue ≡ true
      → IsApproved r.log
      → GateSafe i s (gate env i s r)
  unfolding gate
  gate-GateSafe i s r q h = elim (Bool-cases (env.knows_tool s.tool && env.needs_approval s)) [
    | inl needs ↦
        let w = fire env hitl_required (mark_waiting env i r) in
        rw needs
          (submit-GateSafe i s w.0 w.1 q (fire_log hitl_required (mark_waiting env i r) i h).0)
    | inr free ↦ rw free (h, λ k n. ground arith)
  ]

  abbrev FlowSafe : Flow → Type 0
  FlowSafe (continues r) = IsApproved r.log
  FlowSafe (breaks r) = IsApproved r.log
  FlowSafe (returns_rejected r) = IsApproved r.log
  FlowSafe (returns_cancelled r) = IsApproved r.log
  FlowSafe (panics r) = IsApproved r.log

  perform-IsApproved :
      (i : ℕ) (s : PlanStep) (r : Run)
      → IsApproved r.log
      → (env.knows_tool s.tool ≡ true → env.needs_approval s ≡ true → granted i r.log ≡ true)
      → IsApproved (perform env i s r).log
  unfolding perform
  perform-IsApproved i s r h g = ground arith

  reflect_on_failure-log : (i : ℕ) (r : Run) → (reflect_on_failure env i r).log ≡ r.log
  unfolding reflect_on_failure
  reflect_on_failure-log i r = ground arith

  report-IsApproved :
      (i : ℕ) (s : PlanStep) (r : Run)
      → GateSafe i s (passes r)
      → IsApproved (report env i s (perform env i s r)).log
  unfolding report
  report-IsApproved i s r h = perform-IsApproved i s r h.0 h.1

  act-FlowSafe :
      (i : ℕ) (s : PlanStep) (r : Run) → GateSafe i s (passes r) → FlowSafe (act env i s r)
  unfolding act
  act-FlowSafe i s r h = elim (Bool-cases (out_of_tokens env (perform env i s r).task)) [
    | inl spent ↦ rw spent (perform-IsApproved i s r h.0 h.1)
    | inr more ↦
        let heard = report env i s (perform env i s r) in
        let k = report-IsApproved i s r h in
        rw more (elim (Bool-cases (str_eq (execute_step env i s).error "")) [
          | inl good ↦ rw good ((fire_log step_complete heard i k).0)
          | inr bad ↦
              rw (bad, reflect_on_failure-log i (fire env step_failed heard).0)
                ((fire_log step_failed heard i k).0)
        ])
  ]

  through-FlowSafe :
      (i : ℕ) (s : PlanStep) (g : Gate) → GateSafe i s g → FlowSafe (through env i s g)
  unfolding through
  through-FlowSafe i s (passes r) h = act-FlowSafe i s r h
  through-FlowSafe i s (skips r) h = h
  through-FlowSafe i s (rejects r) h = h

  round_at-FlowSafe :
      (i : ℕ) (s : Option PlanStep) (r : Run)
      → env.has_queue ≡ true
      → IsApproved r.log
      → FlowSafe (round_at env i s r)
  unfolding round_at
  round_at-FlowSafe i none r q h = h
  round_at-FlowSafe i (some s) r q h =
      through-FlowSafe i s (gate env i s (at_step env i r))
        (gate-GateSafe i s (at_step env i r) q h)

  round-FlowSafe :
      (i : ℕ) (r : Run) → env.has_queue ≡ true → IsApproved r.log → FlowSafe (round env i r)
  unfolding round
  round-FlowSafe i r q h = elim (Bool-cases (env.context_done i)) [
    | inl done ↦ rw done h
    | inr live ↦ rw live (round_at-FlowSafe i (step_at r.plan.steps i) r q h)
  ]

  abbrev pub OutcomeSafe : Outcome → Type 0
  OutcomeSafe (finished r) = IsApproved r.log
  OutcomeSafe (rejected_by_human r) = IsApproved r.log
  OutcomeSafe (context_cancelled r) = IsApproved r.log
  OutcomeSafe (not_started t) = Unit
  OutcomeSafe (panicked r) = IsApproved r.log

  follow-OutcomeSafe :
      (go_on : Run → Outcome) (f : Flow)
      → ((r : Run) → IsApproved r.log → OutcomeSafe (go_on r))
      → FlowSafe f
      → OutcomeSafe (follow env go_on f)
  unfolding follow
  follow-OutcomeSafe go_on (continues r) g h = g r h
  follow-OutcomeSafe go_on (breaks r) g h = h
  follow-OutcomeSafe go_on (returns_rejected r) g h = h
  follow-OutcomeSafe go_on (returns_cancelled r) g h = h
  follow-OutcomeSafe go_on (panics r) g h = h

  loop-OutcomeSafe :
      (n i : ℕ) (r : Run) → env.has_queue ≡ true → IsApproved r.log → OutcomeSafe (loop env n i r)
  unfolding loop
  loop-OutcomeSafe zero i r q h = h
  loop-OutcomeSafe (suc n) i r q h = elim (Bool-cases (ltb i r.plan.total_steps)) [
    | inl more ↦ rw more (
        follow-OutcomeSafe (λ r'. loop env n (i + 1) r') (round env i r)
          (λ r' k. loop-OutcomeSafe n (i + 1) r' q k) (round-FlowSafe i r q h))
    | inr over ↦ rw over h
  ]

  concluded-OutcomeSafe : (o : Outcome) → OutcomeSafe o → OutcomeSafe (concluded env o)
  unfolding conclude
  concluded-OutcomeSafe (finished r) h = (fire_log review_passed r 0 h).0
  concluded-OutcomeSafe (rejected_by_human r) h = h
  concluded-OutcomeSafe (context_cancelled r) h = h
  concluded-OutcomeSafe (not_started t) h = h
  concluded-OutcomeSafe (panicked r) h = h

  begun-OutcomeSafe :
      (r : Run) (refused : Option Err)
      → env.has_queue ≡ true
      → IsApproved r.log
      → OutcomeSafe (begun env (r, refused))
  unfolding begun
  begun-OutcomeSafe r (some e) q h = tt
  begun-OutcomeSafe r none q h =
      concluded-OutcomeSafe (loop env env.max_iter 0 r) (loop-OutcomeSafe env.max_iter 0 r q h)

  started-OutcomeSafe :
      (r : Run) (refused : Option Err)
      → env.has_queue ≡ true
      → IsApproved r.log
      → OutcomeSafe (started env (r, refused))
  unfolding started
  started-OutcomeSafe r (some e) q h = tt
  started-OutcomeSafe r none q h =
      let ready =
        with_plan env (plan_task env.planning_reply (mark_started env r).task)
          (mark_started env r) in
      let p = fire env plan_ready ready in
      begun-OutcomeSafe p.0 p.1 q (fire_log plan_ready ready 0 h).0

  -- With a HITL queue attached, however a task ends and whatever the LLM, the tools, the humans and
  -- the clock do: each call of a tool whose step needs approval comes after an answer "approve" of
  -- a human to the checkpoint of the same round.
  pub execute_task-IsApproved : (t : Task) → env.has_queue ≡ true → OutcomeSafe (execute_task env t)
  unfolding execute_task blank
  execute_task-IsApproved t q =
      let s = fire env start (blank env t) in
      started-OutcomeSafe s.0 s.1 q (fire_log start (blank env t) 0 tt).0
