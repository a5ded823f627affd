-- ===== src/Hitl/Examples.antt =====
-- The queue at concrete events, and its theorems there.
use pre_code.Common.{true, erase, insert, ◌≡◌, refl, false, some, List, [], ◌∷◌, ◌++◌, lookup}
use pre_code.Hitl.{
  decide_checked, mark_timeout, signal_decision, decide, may_decide, new_hitl_queue, submit,
  get_by_id, HitlDecision, approve, settled, timed_out, HitlCheckpointEntry, Claims, DecideInput,
  Reply, forbidden, decide_checks, decision_of, is_pending, get_pending, status_handler,
  list_pending_handler,
}
use pre_code.Hitl.Steps.{
  returned, Event, submits, checks, decides, signals, wakes, gives_up, ticks, step, after, Taken,
}
use pre_code.Hitl.Steps.Decisions.{after-allowed}
use pre_code.Hitl.Steps.Finality.{sealed, after-sealed}

abbrev ann : Claims
ann = record { user_id = "ann"; role = "user" }

abbrev bob : Claims
bob = record { user_id = "bob"; role = "user" }

abbrev approval : DecideInput
approval = record { checkpoint_id = "c"; decision = "approve"; modified_data = "" }

abbrev rejection : DecideInput
rejection = record { checkpoint_id = "c"; decision = "reject"; modified_data = "" }

abbrev submitted_one : List Event
submitted_one = submits 1 "c" "t" "ann" ∷ []

-- Bob may not decide; Ann approves, and the `Submit` wakes up.
abbrev approved : List Event
approved =
    wakes 0
    ∷ signals 0
    ∷ decides 1 3
    ∷ checks 1 ann approval
    ∷ decides 0 2
    ∷ checks 0 bob rejection
    ∷ submitted_one

abbrev answer : HitlCheckpointEntry
answer = record {
  id = "c";
  task_id = "t";
  user_id = "ann";
  status = settled approve;
  decision = some approve;
  modified_data = "";
  decided_at = some 3;
  expires_at = 101;
  decision_closed = true;
}

approved_result : (after 100 approved).results 0 ≡ some (returned answer)
unfolding after step is_pending decide_checks decision_of get_by_id lookup submit insert
    new_hitl_queue may_decide decide signal_decision decide_checked
approved_result = refl

after-allowed_example :
    (is_pending answer.status ≡ false)
    × ((d : HitlDecision) → answer.status ≡ settled d → Taken 100 approved answer.id d)
after-allowed_example = after-allowed 100 approved 0 answer approved_result

-- Ann changes her mind too late.
abbrev afterwards : List Event
afterwards = ticks 500 ∷ decides 2 4 ∷ checks 2 ann rejection ∷ []

approved_over : is_pending ((after 100 approved).queue.entries 0).status ≡ false
unfolding after is_pending step decide_checks decision_of get_by_id lookup submit insert
    new_hitl_queue may_decide decide signal_decision decide_checked
approved_over = refl

after-sealed_example :
    sealed ((after 100 (afterwards ++ approved)).queue.entries 0)
    ≡ sealed ((after 100 approved).queue.entries 0)
after-sealed_example = after-sealed 100 approved afterwards 0 approved_over

-- A second checkpoint takes the id of the first; when the first gives up, it ends the second, on
-- which Ann can then not decide.
abbrev same_id : List Event
same_id = decides 0 9 ∷ checks 0 ann approval ∷ gives_up 0 ∷ submits 2 "c" "t" "ann" ∷ submitted_one

same_id_ends : ((after 100 same_id).queue.entries 1).status ≡ timed_out
unfolding after step decide_checks decision_of get_by_id lookup mark_timeout submit insert
    new_hitl_queue erase
same_id_ends = refl

-- Bob's check passes on a checkpoint of his own; when the id is Ann's by then, he decides hers.
overtaken_decides :
    ((after 100 (
        decides 0 9
        ∷ submits 5 "c" "t" "ann"
        ∷ checks 0 bob approval
        ∷ submits 1 "c" "u" "bob"
        ∷ [])).queue.entries
      1).status
    ≡ settled approve
unfolding after step decide_checks decision_of get_by_id lookup submit insert new_hitl_queue
    is_pending may_decide decide_checked decide
overtaken_decides = refl

listed : list_pending_handler (some ann) (after 100 submitted_one).queue ≡ (Reply.ok, 0 ∷ [])
unfolding list_pending_handler after get_pending step submit insert new_hitl_queue is_pending
listed = refl

bob_forbidden : status_handler (some bob) "c" (after 100 submitted_one).queue ≡ forbidden
unfolding status_handler after get_by_id lookup step submit insert new_hitl_queue is_pending
    may_decide
bob_forbidden = refl
