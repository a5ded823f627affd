-- ===== src/Agent/Machine/Lifecycle.antt =====
-- The state machine of a task: which events it accepts, and what it can reach.
use pre_code.Common.{ℕ, ◌≡◌, refl, ◌≢◌, ◌⊎◌, true, none, List, [], ◌∷◌, arith, sym, ◌∙◌, inl, inr}
use pre_code.Agent.Machine.{
  TaskState, pending, planning, executing, waiting_hitl, reviewing, completed, Event, start,
  plan_ready, step_complete, review_passed, Task, transition, valid_transitions, is_terminal,
}

abbrev pub OneOf : Event → List Event → Type 0
OneOf e [] = ⊥
OneOf e (x ∷ xs) = (e ≡ x) ⊎ OneOf e xs

-- `ValidTransitions` lists exactly the events that `Transition` accepts in a state: a listed event
-- gives no error, and an event that gives none is listed.
pub valid_transitions-exact :
    (e : Event) (now : ℕ) (t : Task)
    → (OneOf e (valid_transitions t.state) → (transition e now t).1 ≡ none)
      × ((transition e now t).1 ≡ none → OneOf e (valid_transitions t.state))
unfolding valid_transitions transition
valid_transitions-exact e now t = (λ h. ground arith, λ h. ground arith)

-- An event that the state of a task does not accept changes the update time and nothing else.
pub transition_refused :
    (e : Event) (now : ℕ) (t : Task)
    → (transition e now t).1 ≢ none
    → (transition e now t).0 ≡ record t { updated_at = now }
unfolding transition
transition_refused e now t h = ground arith

-- Events one after another, errors ignored, as the agent's loop ignores them.
unfoldable pub run_events : List (Event × ℕ) → Task → Task
run_events [] t = t
run_events ((e, now) ∷ es) t = run_events es (transition e now t).0

transition_terminal :
    (e : Event) (now : ℕ) (t : Task)
    → is_terminal t.state ≡ true
    → (transition e now t).0 ≡ record t { updated_at = now }
unfolding transition is_terminal
transition_terminal e now t h = ground arith

-- Completed, failed and cancelled are final: no events at all change the state, the result, the
-- error, the retry count or the completion time of such a task.
pub run_events-terminal :
    (es : List (Event × ℕ)) (t : Task)
    → is_terminal t.state ≡ true
    → (run_events es t).state ≡ t.state
      × (run_events es t).error ≡ t.error
      × (run_events es t).retry_count ≡ t.retry_count
      × (run_events es t).completed_at ≡ t.completed_at
unfolding run_events
run_events-terminal [] t h = (refl, refl, refl, refl)
run_events-terminal ((e, now) ∷ es) t h =
    ground (arith, transition_terminal e now t h, run_events-terminal es (transition e now t).0)

-- The listed events occur in the sequence, in that order, others in between allowed.
abbrev pub Occurs : List Event → List (Event × ℕ) → Type 0
Occurs [] es = Unit
Occurs (x ∷ xs) [] = ⊥
Occurs (x ∷ xs) (e ∷ es) = ((x ≡ e.0) × Occurs xs es) ⊎ Occurs (x ∷ xs) es

Occurs-skip :
    (xs : List Event) (e : Event × ℕ) (es : List (Event × ℕ)) → Occurs xs es → Occurs xs (e ∷ es)
Occurs-skip [] e es h = tt
Occurs-skip (x ∷ xs) e es h = inr h

Occurs-tail :
    (x : Event) (xs : List Event) (es : List (Event × ℕ)) → Occurs (x ∷ xs) es → Occurs xs es
Occurs-tail x xs [] h = absurd h
Occurs-tail x xs (e ∷ es) (inl p) = Occurs-skip xs e es p.1
Occurs-tail x xs (e ∷ es) (inr h) = Occurs-skip xs e es (Occurs-tail x xs es h)

-- The phases that a task in a state still has before it.
unfoldable pub phases_left : TaskState → List Event
phases_left pending = start ∷ plan_ready ∷ step_complete ∷ review_passed ∷ []
phases_left planning = plan_ready ∷ step_complete ∷ review_passed ∷ []
phases_left executing = step_complete ∷ review_passed ∷ []
phases_left waiting_hitl = step_complete ∷ review_passed ∷ []
phases_left reviewing = review_passed ∷ []
phases_left _ = []

Occurs-transition :
    (s : TaskState) (e : Event) (now : ℕ) (t : Task) (es : List (Event × ℕ))
    → t.state ≡ s
    → Occurs (phases_left (transition e now t).0.state) es
    → (is_terminal (transition e now t).0.state ≡ true → (transition e now t).0.state ≡ completed)
    → Occurs (phases_left s) ((e, now) ∷ es)
unfolding transition phases_left is_terminal
Occurs-transition pending e now t es q h c = ground arith
Occurs-transition planning e now t es q h c = ground arith
Occurs-transition executing e now t es q h c = ground arith
Occurs-transition waiting_hitl e now t es q h c = ground arith
Occurs-transition reviewing e now t es q h c =
    ground (arith, Occurs-tail step_complete (review_passed ∷ []) es)
Occurs-transition _ e now t es q h c = tt

run_events-final :
    (es : List (Event × ℕ)) (t : Task)
    → (run_events es t).state ≡ completed
    → is_terminal t.state ≡ true
    → t.state ≡ completed
run_events-final es t h f = sym (run_events-terminal es t f).0 ∙ h

-- A task that ends completed has gone through every phase that was before it: from pending, a
-- start, a ready plan, a completed step and a passed review occurred, in this order.
pub run_events-completed :
    (es : List (Event × ℕ)) (t : Task)
    → (run_events es t).state ≡ completed
    → Occurs (phases_left t.state) es
unfolding run_events
run_events-completed [] t h = unfold phases_left in rw h tt
run_events-completed ((e, now) ∷ es) t h =
    Occurs-transition t.state e now t es refl (run_events-completed es (transition e now t).0 h)
      (run_events-final es (transition e now t).0 h)
