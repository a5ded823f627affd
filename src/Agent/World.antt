-- ===== src/Agent/World.antt =====
-- What the agent calls and does not implement, and the state of a run (internal/agent/agent.go):
-- the LLM router, the tools, the HITL queue, the context and the clock answer as functions of the
-- round in which they are asked. Cost, prompts, logs and memories are left out.
use pre_code.Common.{ℕ, zero, suc, ◌+◌, Bool, Option, none, some, List, [], ◌∷◌, String, length}
use pre_code.Agent.Machine.{TaskState, Err, PlanStep, Plan, StepResult, Task}

-- A response of the LLM: its tokens, and the steps of the JSON object in its text, if that parses.
pub record Reply : Type 0 where
  pub input_tokens : ℕ
  pub output_tokens : ℕ
  pub parsed : Option (List PlanStep)

pub data ToolReply : Type 0 where
  fails : String → ToolReply
  outputs : ℕ → ToolReply

pub record Env : Type 0 where
  pub max_iter : ℕ
  pub planning_reply : Option Reply
  pub reflection : ℕ → Option Reply
  pub knows_tool : String → Bool
  pub needs_approval : PlanStep → Bool
  pub execute_tool : ℕ → PlanStep → ToolReply
  pub has_queue : Bool
  pub decision : ℕ → PlanStep → Option String
  pub context_done : ℕ → Bool
  pub clock : ℕ → ℕ
  pub summarise : List StepResult → String

-- What the agent does to the outside, newest first.
pub data Action : Type 0 where
  asked : ℕ → PlanStep → Option String → Action
  executed : ℕ → PlanStep → Action
  notified : TaskState → TaskState → Action

pub record Run : Type 0 where
  pub task : Task
  pub plan : Plan
  pub reported : List StepResult
  pub readings : ℕ
  pub log : List Action

unfoldable pub number_steps : ℕ → List PlanStep → List PlanStep
number_steps i [] = []
number_steps i (s ∷ ss) = record s { index = i } ∷ number_steps (i + 1) ss

-- The part of `parsePlanFromResponse` behind the JSON decoder.
unfoldable pub parse_plan : Option (List PlanStep) → Option Plan
unfolding number_steps
parse_plan none = none
parse_plan (some []) = none
parse_plan (some (s ∷ ss)) =
    some (record { steps = number_steps 0 (s ∷ ss); total_steps = length (s ∷ ss) })

-- Of the title of the task.
unfoldable pub build_default_plan : String → Plan
build_default_plan title = record {
  steps =
      record { index = 0; tool = "list_directory"; params = ("path", ".") ∷ [] }
      ∷ record { index = 1; tool = "search_code"; params = ("pattern", title) ∷ [] }
      ∷ record { index = 2; tool = "read_file"; params = [] }
      ∷ record { index = 3; tool = "edit_file"; params = [] }
      ∷ record { index = 4; tool = "run_command"; params = [] }
      ∷ [];
  total_steps = 5;
}

abbrev pub plan_or_default : String → Option Plan → Plan
unfolding build_default_plan
plan_or_default title none = build_default_plan title
plan_or_default title (some p) = p

unfoldable pub count_tokens : Reply → Task → Task
count_tokens r t = record t {
  input_tokens = t.input_tokens + r.input_tokens;
  output_tokens = t.output_tokens + r.output_tokens;
}

-- `planTask`: it never fails, since each of its errors falls back to the default plan.
unfoldable pub plan_task : Option Reply → Task → Task × Plan
unfolding count_tokens parse_plan build_default_plan
plan_task none t = (t, build_default_plan t.title)
plan_task (some r) t = (count_tokens r t, plan_or_default t.title (parse_plan r.parsed))

-- `plan.Steps[i+1+j] = validSteps[j]` for every `j` that both lists have.
unfoldable pub overwrite : ℕ → List PlanStep → List PlanStep → List PlanStep
overwrite k vs [] = []
overwrite zero [] (s ∷ ss) = s ∷ ss
overwrite zero (v ∷ vs) (s ∷ ss) = v ∷ overwrite zero vs ss
overwrite (suc k) vs (s ∷ ss) = s ∷ overwrite k vs ss

unfoldable pub notify : Option Err → TaskState → TaskState → List Action → List Action
notify none old new log = notified old new ∷ log
notify (some e) old new log = log

abbrev pub step_at : List PlanStep → ℕ → Option PlanStep
step_at [] i = none
step_at (s ∷ ss) zero = some s
step_at (s ∷ ss) (suc i) = step_at ss i
