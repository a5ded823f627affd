-- ===== src/Agent/Round.antt =====
-- One round of the loop of `ExecuteTask` (internal/agent/agent.go): the checkpoint, the tool, and
-- what the agent does with its result.
use pre_code.Common.{
  ℕ, ◌+◌, Bool, true, false, not, ◌&&◌, Option, none, some, [], ◌∷◌, ◌++◌, str_eq, ltb, leb,
  if◌then◌else◌, keep,
}
use pre_code.Agent.Machine.{
  Event, step_complete, step_failed, hitl_required, hitl_approved, hitl_rejected, Err, PlanStep,
  Plan, StepResult, Task, transition,
}
use pre_code.Agent.World.{
  Reply, ToolReply, fails, outputs, Env, asked, executed, Run, parse_plan, count_tokens, overwrite,
  notify, step_at,
}

-- What the checkpoint before a step leads to.
pub data Gate : Type 0 where
  passes : Run → Gate
  skips : Run → Gate
  rejects : Run → Gate

pub data Flow : Type 0 where
  continues : Run → Flow
  breaks : Run → Flow
  returns_rejected : Run → Flow
  returns_cancelled : Run → Flow
  panics : Run → Flow

module _ (env : Env) where
  open env use {
    max_iter, planning_reply, reflection, knows_tool, needs_approval, execute_tool, has_queue,
    decision, context_done, clock, summarise,
  }

  -- `a.transition`, with the error that most callers ignore.
  unfoldable pub fire : Event → Run → Run × Option Err
  unfolding notify
  fire e r =
      let (t, err) = transition e (clock r.readings) r.task in
      (
        record r {
          task = t;
          readings = r.readings + 1;
          log = notify err r.task.state t.state r.log;
        },
        err,
      )

  -- `waitHITLDecision`: the flag says that the step may go on.
  unfoldable pub wait_hitl_decision : ℕ → PlanStep → Run → Run × Bool
  unfolding fire
  wait_hitl_decision i s r =
      let answer = decision i s in
      let submitted = record r { log = asked i s answer ∷ r.log } in
      elim answer [
        | none ↦
            let rejected = (fire hitl_rejected submitted).0 in
            (record rejected { task = record (rejected.task) { error = "HITL failed" } }, false)
        | some status ↦
            if str_eq status "approve"
            then ((fire hitl_approved submitted).0, true)
            else (let rejected = (fire hitl_rejected submitted).0 in
                (
                  record rejected {
                    task = record (rejected.task) {
                      error =
                          if str_eq status "reject"
                          then "rejected by human"
                          else "unknown HITL status";
                    };
                  },
                  false,
                ))
      ]

  unfoldable pub decided : Run × Bool → Gate
  decided (r, true) = passes r
  decided (r, false) = rejects ((fire step_failed r).0)

  unfoldable pub submit : ℕ → PlanStep → Run × Option Err → Gate
  unfolding decided
  submit i s (r, some e) = skips r
  submit i s (r, none) =
      if has_queue then decided (wait_hitl_decision i s r) else passes ((fire hitl_approved r).0)

  unfoldable pub mark_waiting : ℕ → Run → Run
  mark_waiting i r = record r {
    task = record (r.task) { hitl_required = true; hitl_checkpoint = some i };
  }

  unfoldable pub gate : ℕ → PlanStep → Run → Gate
  unfolding submit mark_waiting
  gate i s r =
      if knows_tool s.tool && needs_approval s
      then submit i s (fire hitl_required (mark_waiting i r))
      else passes r

  unfoldable pub reply_result : PlanStep → ToolReply → StepResult
  reply_result s (fails e) = record { step = s.index; tool = s.tool; error = e; tokens_used = 0 }
  reply_result s (outputs n) = record { step = s.index; tool = s.tool; error = ""; tokens_used = n }

  -- `executeStep`, which runs the tool if there is one of that name.
  unfoldable pub execute_step : ℕ → PlanStep → StepResult
  unfolding reply_result
  execute_step i s =
      if knows_tool s.tool
      then reply_result s (execute_tool i s)
      else record { step = s.index; tool = s.tool; error = "tool not found"; tokens_used = 0 }

  -- The call of `executeStep`, and what is written to the task behind it.
  unfoldable pub perform : ℕ → PlanStep → Run → Run
  unfolding execute_step
  perform i s r =
      let result = execute_step i s in
      record r {
        task = record (r.task) {
          steps = r.task.steps ++ result ∷ [];
          tool_tokens = r.task.tool_tokens + result.tokens_used;
        };
        log = if knows_tool s.tool then executed i s ∷ r.log else r.log;
      }

  unfoldable pub adjust : ℕ → Option Plan → Run → Run
  unfolding overwrite
  adjust i none r = r
  adjust i (some adjusted) r =
      let valid = keep (λ s. knows_tool s.tool) adjusted.steps in
      let plan = record (r.plan) { steps = overwrite (i + 1) valid r.plan.steps } in
      record r { plan = plan; task = record (r.task) { plan = some plan } }

  unfoldable pub reflected : ℕ → Option Reply → Run → Run
  unfolding adjust count_tokens parse_plan
  reflected i none r = r
  reflected i (some reply) r =
      adjust i (parse_plan reply.parsed) (record r { task = count_tokens reply r.task })

  -- The LLM is asked for other remaining steps, if there are any left.
  unfoldable pub reflect_on_failure : ℕ → Run → Run
  unfolding reflected
  reflect_on_failure i r =
      if ltb (i + 1) r.plan.total_steps then reflected i (reflection i) r else r

  abbrev pub out_of_tokens : Task → Bool
  out_of_tokens t = ltb 0 t.max_tokens && leb t.max_tokens (t.input_tokens + t.output_tokens)

  -- The result joins the conversation with the LLM.
  unfoldable pub report : ℕ → PlanStep → Run → Run
  report i s r = record r { reported = r.reported ++ execute_step i s ∷ [] }

  -- The rest of a round, behind the checkpoint.
  unfoldable pub act : ℕ → PlanStep → Run → Flow
  act i s r =
      if out_of_tokens (perform i s r).task
      then breaks (perform i s r)
      else if not (str_eq (execute_step i s).error "")
      then continues (reflect_on_failure i (fire step_failed (report i s (perform i s r))).0)
      else continues ((fire step_complete (report i s (perform i s r))).0)

  unfoldable pub through : ℕ → PlanStep → Gate → Flow
  unfolding act
  through i s (passes r) = act i s r
  through i s (skips r) = continues r
  through i s (rejects r) = returns_rejected r

  unfoldable pub at_step : ℕ → Run → Run
  at_step i r = record r { task = record (r.task) { current_step = i } }

  unfoldable pub round_at : ℕ → Option PlanStep → Run → Flow
  unfolding gate through at_step
  round_at i none r = panics r
  round_at i (some s) r = through i s (gate i s (at_step i r))

  -- One round of the loop.
  unfoldable pub round : ℕ → Run → Flow
  unfolding round_at
  round i r = if context_done i then returns_cancelled r else round_at i (step_at r.plan.steps i) r
