-- ===== src/Agent/Run.antt =====
-- `ExecuteTask` (internal/agent/agent.go): planning, the loop over the steps and the review.
pub mod Approval
pub mod Open
pub mod Unfinished
pub mod Rounds
pub mod Final
use pre_code.Common.{
  ℕ, zero, suc, ◌+◌, Bool, true, false, not, ◌&&◌, Option, none, some, List, [], ◌∷◌, ◌++◌, String,
  str_eq, ltb, leb, if◌then◌else◌, keep, length,
}
use pre_code.Agent.Machine.{
  TaskState, Event, start, plan_ready, step_complete, step_failed, hitl_required, hitl_approved,
  hitl_rejected, review_passed, Err, PlanStep, Plan, StepResult, Task, transition,
}
use pre_code.Agent.World.{
  Reply, ToolReply, fails, outputs, Env, Action, asked, executed, notified, Run, parse_plan,
  count_tokens, plan_task, overwrite, notify, step_at,
}
use pre_code.Agent.Round.{
  Gate, passes, skips, rejects, Flow, continues, breaks, returns_rejected, returns_cancelled,
  panics, fire, round,
}

pub data Outcome : Type 0 where
  finished : Run → Outcome
  rejected_by_human : Run → Outcome
  context_cancelled : Run → Outcome
  not_started : Task → Outcome
  panicked : Run → Outcome

module _ (env : Env) where
  open env use {max_iter, planning_reply, clock, summarise}

  unfoldable pub follow : (Run → Outcome) → Flow → Outcome
  follow go_on (continues r) = go_on r
  follow go_on (breaks r) = finished r
  follow go_on (returns_rejected r) = rejected_by_human r
  follow go_on (returns_cancelled r) = context_cancelled r
  follow go_on (panics r) = panicked r

  -- The loop, with the rounds that are left up to `maxIter`.
  unfoldable pub loop : ℕ → ℕ → Run → Outcome
  unfolding follow
  loop zero i r = finished r
  loop (suc n) i r =
      if ltb i r.plan.total_steps
      then follow (λ r'. loop n (i + 1) r') (round env i r)
      else finished r

  unfoldable pub build_result : List StepResult → String
  build_result [] = "Task completed with no observable output."
  build_result (x ∷ xs) = summarise (x ∷ xs)

  -- Phases 3 and 4: the review is declared passed, and the error of that is ignored.
  unfoldable pub conclude : Run → Run
  unfolding fire build_result
  conclude r =
      let reviewed = (fire env review_passed r).0 in
      let t = reviewed.task in
      record reviewed {
        task = record t {
          result = build_result reviewed.reported;
          total_tokens = t.input_tokens + t.output_tokens + t.tool_tokens;
        };
      }

  abbrev pub concluded : Outcome → Outcome
  unfolding conclude
  concluded (finished r) = finished (conclude r)
  concluded o = o

  unfoldable pub blank : Task → Run
  blank t = record {
    task = t;
    plan = record { steps = []; total_steps = 0 };
    reported = [];
    readings = 0;
    log = [];
  }

  unfoldable pub with_plan : Task × Plan → Run → Run
  with_plan (t, plan) r = record r { task = record t { plan = some plan }; plan = plan }

  unfoldable pub planned : Run → Run × Option Err
  unfolding with_plan
  planned r = fire env plan_ready (with_plan (plan_task planning_reply r.task) r)

  unfoldable pub begun : Run × Option Err → Outcome
  unfolding conclude
  begun (r, some e) = not_started r.task
  begun (r, none) = concluded (loop max_iter 0 r)

  unfoldable pub mark_started : Run → Run
  mark_started r = record r { task = record (r.task) { started_at = some (clock r.readings) } }

  unfoldable pub started : Run × Option Err → Outcome
  unfolding planned begun mark_started
  started (r, some e) = not_started r.task
  started (r, none) = begun (planned (mark_started r))

  unfoldable pub execute_task : Task → Outcome
  unfolding started blank
  execute_task t = started (fire env start (blank t))
