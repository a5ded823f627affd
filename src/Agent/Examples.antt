-- ===== src/Agent/Examples.antt =====
-- The agent at concrete tasks, and its theorems there.
use pre_code.Common.{
  str_eq, ◌||◌, ℕ, ◌≡◌, refl, Bool, true, false, none, some, List, [], ◌∷◌, String, ltb,
  if◌then◌else◌, arith,
}
use pre_code.Agent.Machine.{
  TaskState, pending, executing, failed, Event, start, step_complete, review_passed, step_failed,
  cancel, PlanStep, Task, transition, valid_transitions, is_terminal,
}
use pre_code.Agent.Machine.Lifecycle.{
  OneOf, run_events, Occurs, phases_left, valid_transitions-exact, run_events-terminal,
  run_events-completed,
}
use pre_code.Agent.World.{Env, fails, outputs, plan_task}
use pre_code.Agent.Run.{execute_task}
use pre_code.Agent.Run.Approval.{OutcomeSafe, execute_task-IsApproved}
use pre_code.Agent.Run.Unfinished.{NotCompleted, execute_task-NotCompleted}

abbrev task : TaskState → Task
task s = record {
  title = "t";
  state = s;
  plan = none;
  steps = [];
  current_step = 0;
  result = "";
  input_tokens = 0;
  output_tokens = 0;
  tool_tokens = 0;
  total_tokens = 0;
  hitl_required = false;
  hitl_checkpoint = none;
  error = "";
  retry_count = 0;
  max_retries = 5;
  max_tokens = 0;
  started_at = none;
  completed_at = none;
  updated_at = 0;
}

abbrev tool_step : String → PlanStep
tool_step name = record { index = 0; tool = name; params = [] }

-- A plan of a read and an edit; the edit, in round 1, fails.
abbrev env : Bool → ℕ → Env
env careful rounds = record {
  max_iter = rounds;
  planning_reply = some (record {
    input_tokens = 10;
    output_tokens = 5;
    parsed = some (tool_step "read_file" ∷ tool_step "edit_file" ∷ []);
  });
  reflection = λ i. none;
  knows_tool = λ name. str_eq name "read_file" || str_eq name "edit_file";
  needs_approval = λ s. careful;
  execute_tool = λ i s. if ltb i 1 then outputs 20 else fails "denied";
  has_queue = true;
  decision = λ i s. some "approve";
  context_done = λ i. false;
  clock = λ i. i;
  summarise = λ rs. "done";
}

abbrev goes_well : ℕ → Bool
goes_well i = ltb i 1

execute_task-IsApproved_example :
    OutcomeSafe (env true 10) (execute_task (env true 10) (task pending))
execute_task-IsApproved_example = execute_task-IsApproved (env true 10) (task pending) refl

execute_task-NotCompleted_example : NotCompleted (execute_task (env false 1) (task pending))
unfolding plan_task
execute_task-NotCompleted_example =
    execute_task-NotCompleted (env false 1) (task pending) refl (omega arith)

valid_transitions-exact_example :
    (OneOf cancel (valid_transitions pending) → (transition cancel 3 (task pending)).1 ≡ none)
    × ((transition cancel 3 (task pending)).1 ≡ none → OneOf cancel (valid_transitions pending))
valid_transitions-exact_example = valid_transitions-exact cancel 3 (task pending)

abbrev retries : List (Event × ℕ)
retries = (start, 3) ∷ (step_failed, 4) ∷ []

run_events-terminal_example :
    (run_events retries (task failed)).state ≡ failed
    × (run_events retries (task failed)).error ≡ ""
    × (run_events retries (task failed)).retry_count ≡ 0
    × (run_events retries (task failed)).completed_at ≡ none
unfolding is_terminal
run_events-terminal_example = run_events-terminal retries (task failed) refl

run_events-completed_example :
    Occurs (phases_left executing) ((step_complete, 3) ∷ (review_passed, 4) ∷ [])
unfolding run_events transition
run_events-completed_example =
    run_events-completed ((step_complete, 3) ∷ (review_passed, 4) ∷ [])
      (record (task executing) {
        plan = some (record { steps = tool_step "read_file" ∷ []; total_steps = 1 });
      })
      refl
