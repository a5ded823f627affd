-- ===== src/Agent/Run/Unfinished.antt =====
-- A plan that is longer than the loop may run is never completed.
use pre_code.Common.{ℕ, ◌<◌, ◌≡◌, ◌≢◌, refl, ap, String, Option, none, some, arith, ◌∙◌}
use pre_code.Agent.Machine.{
  Task, start, plan_ready, reviewing, completed, planning, pending, Plan, Err, transition,
}
use pre_code.Agent.World.{
  Env, Run, Reply, plan_task, parse_plan, build_default_plan, plan_or_default,
}
use pre_code.Agent.Round.{fire}
use pre_code.Agent.Run.{
  Outcome, finished, rejected_by_human, context_cancelled, not_started, panicked, loop, conclude,
  concluded, blank, with_plan, begun, started, mark_started, execute_task,
}
use pre_code.Agent.Run.Open.{Open, OutcomeOpen, loop-OutcomeOpen}

-- The state in which a call of `ExecuteTask` that returns no error leaves the task.
abbrev pub NotCompleted : Outcome → Type 0
NotCompleted (finished r) = r.task.state ≢ completed
NotCompleted _ = Unit

module _ (env : Env) where
  conclude-NotCompleted :
      (r : Run)
      → r.task.state ≢ reviewing
      → r.task.state ≢ completed
      → (conclude env r).task.state ≢ completed
  unfolding conclude fire transition
  conclude-NotCompleted r h k = ground arith

  concluded-NotCompleted :
      (total : ℕ) (o : Outcome) → OutcomeOpen env total o → NotCompleted (concluded env o)
  unfolding conclude
  concluded-NotCompleted total (finished r) h =
      conclude-NotCompleted r h.not_reviewing h.not_completed
  concluded-NotCompleted total (rejected_by_human r) h = tt
  concluded-NotCompleted total (context_cancelled r) h = tt
  concluded-NotCompleted total (not_started t) h = tt
  concluded-NotCompleted total (panicked r) h = tt

  plan_task_plan :
      (o : Option Reply) (t u : Task) → t.title ≡ u.title → (plan_task o t).1 ≡ (plan_task o u).1
  unfolding plan_task
  plan_task_plan none t u e = ap build_default_plan e
  plan_task_plan (some r) t u e =
      ap (λ (title : String). plan_or_default title (parse_plan r.parsed)) e

  plan_task_state : (o : Option Reply) (t : Task) → (plan_task o t).0.state ≡ t.state
  unfolding plan_task
  plan_task_state none t = refl
  plan_task_state (some r) t = refl

  ready-Open :
      (t : Task) (p : Plan) (r : Run)
      → t.state ≡ planning
      → Open env p.total_steps (fire env plan_ready (with_plan env (t, p) r)).0
  unfolding with_plan fire transition
  ready-Open t p r h = ground arith

  begun-NotCompleted :
      (total : ℕ) (r : Run) (refused : Option Err)
      → Open env total r
      → env.max_iter < total
      → NotCompleted (begun env (r, refused))
  unfolding begun
  begun-NotCompleted total r (some e) h l = tt
  begun-NotCompleted total r none h l =
      concluded-NotCompleted total (loop env env.max_iter 0 r)
        (loop-OutcomeOpen env total env.max_iter 0 r h (omega arith))

  started-NotCompleted :
      (r : Run) (refused : Option Err)
      → r.task.state ≡ planning
      → env.max_iter < (plan_task env.planning_reply r.task).1.total_steps
      → NotCompleted (started env (r, refused))
  unfolding started
  started-NotCompleted r (some e) h l = tt
  started-NotCompleted r none h l =
      let m = mark_started env r in
      let tp = plan_task env.planning_reply m.task in
      let p = fire env plan_ready (with_plan env tp m) in
      begun-NotCompleted tp.1.total_steps p.0 p.1
        (ready-Open tp.0 tp.1 m (plan_task_state env.planning_reply m.task ∙ h))
        (rw (plan_task_plan env.planning_reply m.task r.task refl) l)

  -- A pending task whose plan has more steps than the loop may run is not completed by
  -- `ExecuteTask`, also where every step succeeds: a call that returns no error leaves it in
  -- another state.
  pub execute_task-NotCompleted :
      (t : Task)
      → t.state ≡ pending
      → env.max_iter < (plan_task env.planning_reply t).1.total_steps
      → NotCompleted (execute_task env t)
  unfolding execute_task
  execute_task-NotCompleted t h l =
      let s = fire env start (blank env t) in
      started-NotCompleted s.0 s.1 (unfold fire transition blank in ground arith) (
        rw
          (plan_task_plan env.planning_reply s.0.task t
            (unfold fire transition blank in ground arith))
          l)
