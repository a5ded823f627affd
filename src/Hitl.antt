-- ===== src/Hitl.antt =====
-- The queue of checkpoints that wait for a human (internal/middleware/hitl.go). An entry is shared
-- by its pointer: `entries` is the memory, in which a handle stands for the pointer, and `pending`
-- maps ids to handles. A critical section of the mutex is one step. Writes to Redis, whose answers
-- are ignored, the callback, the counters and the fields that are only shown are left out. Times and
-- durations are nanoseconds.
pub mod Steps
mod Examples
use pre_code.Common.{
  ℕ, suc, ◌+◌, ◌==◌, Bool, true, false, ◌&&◌, ◌||◌, not, Option, none, some, List, [], ◌∷◌, String,
  Dict, lookup, insert, erase, str_eq, ltb, if◌then◌else◌,
}

pub data HitlDecision : Type 0 where
  approve reject modify : HitlDecision

pub data Status : Type 0 where
  pending : Status
  settled : HitlDecision → Status
  timed_out : Status

pub record HitlCheckpointEntry : Type 0 where
  pub id : String
  pub task_id : String
  pub user_id : String
  pub status : Status
  pub decision : Option HitlDecision
  pub modified_data : String
  pub decided_at : Option ℕ
  pub expires_at : ℕ
  pub decision_closed : Bool

pub record HitlQueue : Type 0 where
  pub pending : Dict ℕ
  pub entries : ℕ → HitlCheckpointEntry
  pub next : ℕ
  pub timeout : ℕ

abbrev blank : HitlCheckpointEntry
blank = record {
  id = "";
  task_id = "";
  user_id = "";
  status = pending;
  decision = none;
  modified_data = "";
  decided_at = none;
  expires_at = 0;
  decision_closed = false;
}

unfoldable pub new_hitl_queue : ℕ → HitlQueue
new_hitl_queue timeout = record { pending = []; entries = λ h. blank; next = 0; timeout = timeout }

unfoldable pub is_pending : Status → Bool
is_pending pending = true
is_pending _ = false

-- `*p = e`
abbrev pub write : ℕ → HitlCheckpointEntry → (ℕ → HitlCheckpointEntry) → ℕ → HitlCheckpointEntry
write h e entries i = if i == h then e else entries i

-- The entry as `Submit` fills it.
abbrev pub submitted : ℕ → String → String → String → ℕ → HitlCheckpointEntry
submitted now id task_id user_id timeout = record {
  id = id;
  task_id = task_id;
  user_id = user_id;
  status = pending;
  decision = none;
  modified_data = "";
  decided_at = none;
  expires_at = now + timeout;
  decision_closed = false;
}

-- `Submit` up to the wait; the handle of the entry is `q.next`.
unfoldable pub submit : ℕ → String → String → String → HitlQueue → HitlQueue
submit now id task_id user_id q = record q {
  pending = insert id q.next q.pending;
  entries = write q.next (submitted now id task_id user_id q.timeout) q.entries;
  next = suc q.next;
}

-- `Decide` on what is found under the id.
decide_found : ℕ → String → HitlDecision → String → HitlQueue → Option ℕ → HitlQueue × Option ℕ
decide_found now id d text q none = (q, none)
decide_found now id d text q (some h) =
    if is_pending (q.entries h).status
    then (
      record q {
        pending = erase id q.pending;
        entries =
            write h
              (record (q.entries h) {
                decision = some d;
                modified_data = text;
                decided_at = some now;
                status = settled d;
              })
              q.entries;
      },
      some h,
    )
    else (q, none)

-- `Decide` up to the signal; `none` is an error, and otherwise the entry is to be signalled.
unfoldable pub decide : ℕ → String → HitlDecision → String → HitlQueue → HitlQueue × Option ℕ
unfolding decide_found
decide now id d text q = decide_found now id d text q (lookup id q.pending)

-- `signalDecision`: the flag says that the channel is closed.
unfoldable pub signal_decision : ℕ → HitlQueue → HitlQueue
signal_decision h q =
    if (q.entries h).decision_closed
    then q
    else record q { entries = write h (record (q.entries h) { decision_closed = true }) q.entries }

mark_found : String → HitlQueue → Option ℕ → HitlQueue
mark_found id q none = q
mark_found id q (some h) = record q {
  pending = erase id q.pending;
  entries = write h (record (q.entries h) { status = timed_out }) q.entries;
}

-- `markTimeout` up to the signal, which goes to the entry that was found.
unfoldable pub mark_timeout : String → HitlQueue → HitlQueue
unfolding mark_found
mark_timeout id q = mark_found id q (lookup id q.pending)

expire_found : ℕ → String → HitlQueue → Option ℕ → HitlQueue
expire_found now id q none = q
expire_found now id q (some h) =
    if ltb (q.entries h).expires_at now
    then record q {
      pending = erase id q.pending;
      entries =
          write h (record (q.entries h) { status = timed_out; decision_closed = true }) q.entries;
    }
    else q

-- One round of the loop.
unfoldable pub expire_one : ℕ → String → HitlQueue → HitlQueue
unfolding expire_found
expire_one now id q = expire_found now id q (lookup id q.pending)

-- The loop over the map, by its keys.
expire_all : ℕ → Dict ℕ → HitlQueue → HitlQueue
unfolding expire_one
expire_all now [] q = q
expire_all now ((id, h) ∷ d) q = expire_all now d (expire_one now id q)

-- One tick of `expiryChecker`.
unfoldable pub expire : ℕ → HitlQueue → HitlQueue
unfolding expire_all
expire now q = expire_all now q.pending q

-- The handles that pass, in the order in which the map is visited.
pending_handles : (HitlCheckpointEntry → Bool) → (ℕ → HitlCheckpointEntry) → Dict ℕ → List ℕ
pending_handles p entries [] = []
pending_handles p entries ((id, h) ∷ d) =
    let rest = pending_handles p entries d in
    if p (entries h) && is_pending (entries h).status then h ∷ rest else rest

unfoldable pub get_pending : String → HitlQueue → List ℕ
unfolding pending_handles
get_pending user_id q = pending_handles (λ e. str_eq e.user_id user_id) q.entries q.pending

unfoldable pub get_pending_by_task : String → HitlQueue → List ℕ
unfolding pending_handles
get_pending_by_task task_id q = pending_handles (λ e. str_eq e.task_id task_id) q.entries q.pending

found_by_id : HitlQueue → Option ℕ → Option ℕ
found_by_id q none = none
found_by_id q (some h) = if is_pending (q.entries h).status then some h else none

unfoldable pub get_by_id : String → HitlQueue → Option ℕ
unfolding found_by_id
get_by_id id q = found_by_id q (lookup id q.pending)

pub record Claims : Type 0 where
  pub user_id : String
  pub role : String

pub record DecideInput : Type 0 where
  pub checkpoint_id : String
  pub decision : String
  pub modified_data : String

-- The answers of the handlers.
pub data Reply : Type 0 where
  ok unauthorized bad_request not_found forbidden : Reply

unfoldable pub decision_of : String → Option HitlDecision
decision_of s =
    if str_eq s "approve"
    then some approve
    else if str_eq s "reject"
    then some reject
    else if str_eq s "modify"
    then some modify
    else none

-- Whose checkpoint it is, or an administrator.
unfoldable pub may_decide : Claims → String → Bool
may_decide claims user_id =
    str_eq user_id claims.user_id || (str_eq claims.role "admin" || str_eq claims.role "superadmin")

replied : HitlQueue × Option ℕ → HitlQueue × Reply × Option ℕ
replied (q, none) = (q, not_found, none)
replied (q, some h) = (q, ok, some h)

-- What the first part of `DecideHandler` comes to: an answer, or the decision that goes to `Decide`.
pub data Checked : Type 0 where
  answered : Reply → Checked
  passed : HitlDecision → Checked

check_owner : Claims → HitlDecision → HitlQueue → Option ℕ → Checked
check_owner claims d q none = answered not_found
check_owner claims d q (some h) =
    if may_decide claims (q.entries h).user_id then passed d else answered forbidden

check_decision : Claims → DecideInput → HitlQueue → Option HitlDecision → Checked
unfolding check_owner
check_decision claims input q none = answered bad_request
check_decision claims input q (some d) = check_owner claims d q (get_by_id input.checkpoint_id q)

-- `DecideHandler` up to and with its critical section in `GetByID`, on a body that was read, or not.
unfoldable pub decide_checks : Option Claims → Option DecideInput → HitlQueue → Checked
unfolding check_decision
decide_checks none input q = answered unauthorized
decide_checks (some claims) none q = answered bad_request
decide_checks (some claims) (some input) q =
    if str_eq input.checkpoint_id ""
    then answered bad_request
    else check_decision claims input q (decision_of input.decision)

-- The rest of `DecideHandler`, with the critical section of `Decide`; the entry is then signalled.
unfoldable pub decide_checked :
    ℕ → DecideInput → HitlDecision → HitlQueue → HitlQueue × Reply × Option ℕ
unfolding replied
decide_checked now input d q = replied (decide now input.checkpoint_id d input.modified_data q)

status_seen : Claims → HitlQueue → Option ℕ → Reply
status_seen claims q none = not_found
status_seen claims q (some h) = if may_decide claims (q.entries h).user_id then ok else forbidden

-- `StatusHandler`
unfoldable pub status_handler : Option Claims → String → HitlQueue → Reply
unfolding status_seen
status_handler none id q = unauthorized
status_handler (some claims) id q =
    if str_eq id "" then bad_request else status_seen claims q (get_by_id id q)

-- `ListPendingHandler`
unfoldable pub list_pending_handler : Option Claims → HitlQueue → Reply × List ℕ
list_pending_handler none q = (unauthorized, [])
list_pending_handler (some claims) q = (ok, get_pending claims.user_id q)
