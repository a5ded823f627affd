-- ===== src/Agent/Machine.antt =====
-- Tasks and the state machine (internal/agent/state.go). Of a task's fields those stand here that
-- the state machine and the loop of `ExecuteTask` read or write; cost, a float that is only summed
-- up, and the descriptive texts are left out. Times are nanoseconds.
pub mod Lifecycle
use pre_code.Common.{
  ℕ, ◌+◌, Bool, true, false, Option, none, some, List, [], ◌∷◌, String, leb, if◌then◌else◌,
}

pub data TaskState : Type 0 where
  pending planning executing waiting_hitl reviewing completed failed cancelled : TaskState

pub data Event : Type 0 where
  start plan_ready step_complete step_failed hitl_required hitl_approved : Event
  hitl_rejected review_passed review_failed cancel : Event

pub record PlanStep : Type 0 where
  pub index : ℕ
  pub tool : String
  pub params : List (String × String)

pub record Plan : Type 0 where
  pub steps : List PlanStep
  pub total_steps : ℕ

pub record StepResult : Type 0 where
  pub step : ℕ
  pub tool : String
  pub error : String
  pub tokens_used : ℕ

pub record Task : Type 0 where
  pub title : String
  pub state : TaskState
  pub plan : Option Plan
  pub steps : List StepResult
  pub current_step : ℕ
  pub result : String
  pub input_tokens : ℕ
  pub output_tokens : ℕ
  pub tool_tokens : ℕ
  pub total_tokens : ℕ
  pub hitl_required : Bool
  pub hitl_checkpoint : Option ℕ
  pub error : String
  pub retry_count : ℕ
  pub max_retries : ℕ
  pub max_tokens : ℕ
  pub started_at : Option ℕ
  pub completed_at : Option ℕ
  pub updated_at : ℕ

pub data Err : Type 0 where
  invalid_transition : TaskState → Event → Err

-- `task.Plan != nil && task.CurrentStep >= task.Plan.TotalSteps-1`.
pub is_last : Option Plan → ℕ → Bool
is_last none current = false
is_last (some p) current = leb p.total_steps (current + 1)

-- The two nested switches of `Transition`; `none` is a case that falls through to the error.
apply : TaskState → Event → ℕ → Task → Option Task
unfolding is_last
apply pending start now t = some (record t { state = planning })
apply pending cancel now t = some (record t { state = cancelled })
apply planning plan_ready now t = some (record t { state = executing })
apply planning step_failed now t = some (record t { state = failed })
apply executing step_complete now t =
    some (if is_last t.plan t.current_step then record t { state = reviewing } else t)
apply executing step_failed now t = some (
    if leb t.max_retries (t.retry_count + 1)
    then record t { state = failed }
    else record t { retry_count = t.retry_count + 1 })
apply executing hitl_required now t = some (record t { state = waiting_hitl })
apply executing hitl_approved now t = some (record t { state = executing })
apply executing cancel now t = some (record t { state = cancelled })
apply waiting_hitl hitl_approved now t = some (record t { state = executing })
apply waiting_hitl hitl_rejected now t =
    some (record t { state = failed; error = "rejected by human" })
apply reviewing review_passed now t = some (record t { state = completed; completed_at = some now })
apply reviewing review_failed now t = some (record t { state = executing })
apply _ _ now t = none

-- The update time is written before the event is looked at, so also when it is refused.
unfoldable pub transition : Event → ℕ → Task → Task × Option Err
unfolding apply
transition e now t =
    let stamped = record t { updated_at = now } in
    elim (apply t.state e now stamped) [
      | some t' ↦ (t', none)
      | none ↦ (stamped, some (invalid_transition t.state e))
    ]

unfoldable pub valid_transitions : TaskState → List Event
valid_transitions pending = start ∷ cancel ∷ []
valid_transitions planning = plan_ready ∷ step_failed ∷ []
valid_transitions executing =
    step_complete ∷ step_failed ∷ hitl_required ∷ hitl_approved ∷ cancel ∷ []
valid_transitions waiting_hitl = hitl_approved ∷ hitl_rejected ∷ []
valid_transitions reviewing = review_passed ∷ review_failed ∷ []
valid_transitions _ = []

unfoldable pub is_terminal : TaskState → Bool
is_terminal completed = true
is_terminal failed = true
is_terminal cancelled = true
is_terminal _ = false
