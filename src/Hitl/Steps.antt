-- ===== src/Hitl/Steps.antt =====
-- The queue with the goroutines that wait in `Submit`.
pub mod Invariant
pub mod Decisions
pub mod Finality
use pre_code.Common.{
  ℕ, suc, ◌+◌, ◌<◌, ◌==◌, ◌≡◌, refl, sym, ◌∙◌, ap, subst, ◌⊎◌, inl, inr, Bool, true, false, Option,
  none, some, List, [], ◌∷◌, String, Dict, lookup, insert, erase, insert-cases, lookup-erase,
  str_eq, eq_iff, ltb, if◌then◌else◌, arith, Bool-cases,
}
use pre_code.Hitl.{
  HitlDecision, Status, pending, settled, timed_out, HitlCheckpointEntry, HitlQueue, Claims,
  DecideInput, new_hitl_queue, is_pending, write, submit, decide, decide_found, signal_decision,
  mark_timeout, mark_found, expire, expire_all, expire_found, Checked, answered, passed,
  decide_checks, decide_checked, decision_of, may_decide, replied, get_by_id, found_by_id,
}

-- What `Submit` returns: the entry as it is then, or an error.
pub data Result : Type 0 where
  returned : HitlCheckpointEntry → Result
  failed : Result

pub record System : Type 0 where
  pub queue : HitlQueue
  pub results : ℕ → Option Result
  pub checked : ℕ → Option (DecideInput × HitlDecision)

-- What happens, in any order. A signal goes to an entry that is no longer pending, which is what
-- `Decide` and `markTimeout` leave behind; `wakes` and `gives_up` end the `Submit` of a handle. The call
-- of `DecideHandler` with a number `checks`, and if it passes, `decides` at any time later.
pub data Event : Type 0 where
  submits : ℕ → String → String → String → Event
  checks : ℕ → Claims → DecideInput → Event
  decides : ℕ → ℕ → Event
  signals : ℕ → Event
  wakes : ℕ → Event
  gives_up : ℕ → Event
  ticks : ℕ → Event

abbrev pub put : ℕ → Result → (ℕ → Option Result) → ℕ → Option Result
put h res results i = if i == h then some res else results i

-- `case <-entry.decisionCh: return entry, nil`
woken : ℕ → System → Option Result → System
woken h s none =
    if (s.queue.entries h).decision_closed
    then record s { results = put h (returned (s.queue.entries h)) s.results }
    else s
woken h s (some res) = s

-- `q.markTimeout(entry.ID); return nil, …`
given_up : ℕ → System → Option Result → System
given_up h s none = record s {
  queue = mark_timeout (s.queue.entries h).id s.queue;
  results = put h failed s.results;
}
given_up h s (some res) = s

abbrev pub note :
    ℕ
    → Option (DecideInput × HitlDecision)
    → (ℕ → Option (DecideInput × HitlDecision))
    → ℕ
    → Option (DecideInput × HitlDecision)
note k c checked i = if i == k then c else checked i

passed_to : DecideInput → Checked → Option (DecideInput × HitlDecision)
passed_to input (answered reply) = none
passed_to input (passed d) = some (input, d)

decided : ℕ → ℕ → System → Option (DecideInput × HitlDecision) → System
decided k now s none = s
decided k now s (some (input, d)) = record s {
  queue = (decide_checked now input d s.queue).0;
  checked = note k none s.checked;
}

unfoldable pub step : Event → System → System
unfolding woken given_up passed_to decided
step (submits now id task_id user_id) s = record s { queue = submit now id task_id user_id s.queue }
step (checks k claims input) s = record s {
  checked = note k (passed_to input (decide_checks (some claims) (some input) s.queue)) s.checked;
}
step (decides k now) s = decided k now s (s.checked k)
step (signals h) s =
    if is_pending (s.queue.entries h).status
    then s
    else record s { queue = signal_decision h s.queue }
step (wakes h) s = woken h s (s.results h)
step (gives_up h) s = given_up h s (s.results h)
step (ticks now) s = record s { queue = expire now s.queue }

-- The latest event comes first.
unfoldable pub after : ℕ → List Event → System
after timeout [] = record {
  queue = new_hitl_queue timeout;
  results = λ h. none;
  checked = λ k. none;
}
after timeout (ev ∷ past) = step ev (after timeout past)

-- In this queue the human may take this decision on the checkpoint that is pending under the id.
pub record Allowed (id : String) (d : HitlDecision) (claims : Claims) (input : DecideInput)
    (q : HitlQueue) : Type 0 where
  pub same : input.checkpoint_id ≡ id
  pub chosen : decision_of input.decision ≡ some d
  pub entry : ℕ
  pub found : lookup id q.pending ≡ some entry
  pub waits : is_pending (q.entries entry).status ≡ true
  pub entitled : may_decide claims (q.entries entry).user_id ≡ true

AllowedBy : String → HitlDecision → Event → HitlQueue → Type 0
AllowedBy id d (checks k claims input) q = Allowed id d claims input q
AllowedBy id d _ q = ⊥

-- One of the events is such a check, at the queue as it was then.
unfoldable pub Taken : ℕ → List Event → String → HitlDecision → Type 0
unfolding AllowedBy
Taken timeout [] id d = ⊥
Taken timeout (ev ∷ past) id d =
    AllowedBy id d ev (after timeout past).queue ⊎ Taken timeout past id d
