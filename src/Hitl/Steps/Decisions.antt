-- ===== src/Hitl/Steps/Decisions.antt =====
-- Who decided what a `Submit` returns.
use pre_code.Common.{
  ℕ, ◌==◌, ◌≡◌, refl, sym, ◌∙◌, ap, subst, ◌⊎◌, inl, inr, true, false, Option, none, some, List, [],
  ◌∷◌, lookup, String, str_eq, arith, Bool-cases,
}
use mathlib.Core.Option.{some-injective}
use pre_code.Hitl.{
  HitlDecision, settled, HitlCheckpointEntry, HitlQueue, Claims, DecideInput, new_hitl_queue,
  is_pending, decide, Checked, answered, passed, check_owner, check_decision, decide_checks,
  decide_checked, forbidden, bad_request, decision_of, may_decide, replied, get_by_id, found_by_id,
}
use pre_code.Hitl.Steps.{
  Result, returned, failed, System, Event, submits, checks, decides, signals, wakes, gives_up,
  ticks, put, woken, given_up, step, after, AllowedBy, Allowed, Taken, note, passed_to, decided,
}
use pre_code.Hitl.Steps.Invariant.{
  Takes, Inv, Inv-later, submit-Inv, decide-Inv, signal-Inv, mark_timeout-Inv, expire-Inv,
}

replied-queue : (x : HitlQueue × Option ℕ) → (replied x).0 ≡ x.0
unfolding replied
replied-queue (q, none) = refl
replied-queue (q, some h) = refl

found_by_id-some :
    (q : HitlQueue) (o : Option ℕ) (h : ℕ)
    → found_by_id q o ≡ some h
    → (o ≡ some h) × (is_pending (q.entries h).status ≡ true)
unfolding found_by_id
found_by_id-some q none h e = absurd (ground (arith, e))
found_by_id-some q (some i) h e = elim (Bool-cases (is_pending (q.entries i).status)) [
  | inl is ↦
      (let at : some i ≡ some h = sym (rw is refl) ∙ e in
        (at, ap (λ (j : ℕ). is_pending (q.entries j).status) (sym (some-injective _ _ at)) ∙ is))
  | inr isnt ↦
      (let gone : found_by_id q (some i) ≡ none = rw isnt refl in
        absurd (ground (arith, sym gone ∙ e)))
]

passed-same : (d d' : HitlDecision) → passed d ≡ passed d' → d ≡ d'
passed-same d d' is = ap (λ (c : Checked). elim c [ passed x ↦ x | _ ↦ d ]) is

check_owner-Allowed :
    (claims : Claims) (input : DecideInput) (q : HitlQueue) (d d' : HitlDecision) (o : Option ℕ)
    → get_by_id input.checkpoint_id q ≡ o
    → decision_of input.decision ≡ some d
    → check_owner claims d q o ≡ passed d'
    → Allowed input.checkpoint_id d' claims input q
unfolding check_owner get_by_id
check_owner-Allowed claims input q d d' none seen chosen e = absurd (ground (arith, e))
check_owner-Allowed claims input q d d' (some h) seen chosen e =
    elim (Bool-cases (may_decide claims (q.entries h).user_id)) [
      | inr isnt ↦
          (let gone : check_owner claims d q (some h) ≡ answered forbidden = rw isnt refl in
            absurd (ground (arith, sym gone ∙ e)))
      | inl is ↦
          (let at : passed d ≡ passed d' = sym (rw is refl) ∙ e in
            let found = found_by_id-some q (lookup input.checkpoint_id q.pending) h seen in
            record {
              same = refl;
              chosen = chosen ∙ ap (λ (x : HitlDecision). some x) (passed-same d d' at);
              entry = h;
              found = found.0;
              waits = found.1;
              entitled = is;
            })
    ]

check_decision-Allowed :
    (claims : Claims) (input : DecideInput) (q : HitlQueue) (d : HitlDecision)
    (o : Option HitlDecision)
    → decision_of input.decision ≡ o
    → check_decision claims input q o ≡ passed d
    → Allowed input.checkpoint_id d claims input q
unfolding check_decision
check_decision-Allowed claims input q d none chosen e = absurd (ground (arith, e))
check_decision-Allowed claims input q d (some d') chosen e =
    check_owner-Allowed claims input q d' d (get_by_id input.checkpoint_id q) refl chosen e

decide_checks-Allowed :
    (claims : Claims) (input : DecideInput) (q : HitlQueue) (d : HitlDecision)
    → decide_checks (some claims) (some input) q ≡ passed d
    → Allowed input.checkpoint_id d claims input q
unfolding decide_checks
decide_checks-Allowed claims input q d e = elim (Bool-cases (str_eq input.checkpoint_id "")) [
  | inl is ↦
      (let gone : decide_checks (some claims) (some input) q ≡ answered bad_request = rw is refl in
        absurd (ground (arith, sym gone ∙ e)))
  | inr isnt ↦
      check_decision-Allowed claims input q d (decision_of input.decision) refl
        (sym (rw isnt refl) ∙ e)
]

passed_to-some :
    (input input' : DecideInput) (c : Checked) (d : HitlDecision)
    → passed_to input c ≡ some (input', d)
    → (input ≡ input') × (c ≡ passed d)
unfolding passed_to
passed_to-some input input' (answered reply) d e = absurd (ground (arith, e))
passed_to-some input input' (passed d') d e =
    let at = some-injective _ _ e in
    (
      ap (λ (x : DecideInput × HitlDecision). x.0) at,
      ap (λ (x : DecideInput × HitlDecision). passed x.1) at,
    )

decide_checked-Inv :
    (past : Takes) (q : HitlQueue) (now : ℕ) (input : DecideInput) (d : HitlDecision)
    → past input.checkpoint_id d
    → Inv past q
    → Inv past (decide_checked now input d q).0
unfolding decide_checked
decide_checked-Inv past q now input d took v =
    rw (replied-queue (decide now input.checkpoint_id d input.modified_data q)) (
      decide-Inv past q now input.checkpoint_id d input.modified_data
        (λ h found.
          subst (λ (id : String). past id d) (sym (v.keyed input.checkpoint_id h found).0) took)
        v)

-- The entry was decided by someone who may, if it was decided, and is not pending.
pub record Answer (past : Takes) (e : HitlCheckpointEntry) : Type 0 where
  pub over : is_pending e.status ≡ false
  pub allowed : (d : HitlDecision) → e.status ≡ settled d → past e.id d

pub record SystemInv (past : Takes) (s : System) : Type 0 where
  pub queue : Inv past s.queue
  pub answers : (h : ℕ) (e : HitlCheckpointEntry) → s.results h ≡ some (returned e) → Answer past e
  pub noted :
      (k : ℕ) (input : DecideInput) (d : HitlDecision)
      → s.checked k ≡ some (input, d)
      → past input.checkpoint_id d

note-cases :
    (k i : ℕ) (c c' : Option (DecideInput × HitlDecision))
    (checked : ℕ → Option (DecideInput × HitlDecision))
    → note k c checked i ≡ c'
    → (c ≡ c') ⊎ (checked i ≡ c')
note-cases k i c c' checked e = elim (Bool-cases (i == k)) [
  | inl is ↦ inl (sym (rw is refl) ∙ e)
  | inr isnt ↦ inr (sym (rw isnt refl) ∙ e)
]

put-cases :
    (h i : ℕ) (res res' : Result) (results : ℕ → Option Result)
    → put h res results i ≡ some res'
    → (res ≡ res') ⊎ (results i ≡ some res')
put-cases h i res res' results e = elim (Bool-cases (i == h)) [
  | inl is ↦
      (let at : put h res results i ≡ some res = rw is refl in
        inl (some-injective _ _ (sym at ∙ e)))
  | inr isnt ↦ (let at : put h res results i ≡ results i = rw isnt refl in inr (sym at ∙ e))
]

returned-same : (e e' : HitlCheckpointEntry) → returned e ≡ returned e' → e ≡ e'
returned-same e e' is = ap (λ (r : Result). elim r [ returned x ↦ x | failed ↦ e ]) is

woken-Inv :
    (past : Takes) (h : ℕ) (s : System) (o : Option Result)
    → SystemInv past s
    → SystemInv past (woken h s o)
unfolding woken
woken-Inv past h s (some res) v = v
woken-Inv past h s none v = elim (Bool-cases (s.queue.entries h).decision_closed) [
  | inr isnt ↦ simp isnt v
  | inl is ↦ simp is (record {
    queue = v.queue;
    noted = v.noted;
    answers = λ i e found.
        elim (put-cases h i (returned (s.queue.entries h)) (returned e) s.results found) [
          | inr old ↦ v.answers i e old
          | inl same ↦
              subst (Answer past) (returned-same (s.queue.entries h) e same)
                (record { over = v.queue.closed h is; allowed = v.queue.taken h })
        ];
  })
]

given_up-Inv :
    (past : Takes) (h : ℕ) (s : System) (o : Option Result)
    → SystemInv past s
    → SystemInv past (given_up h s o)
unfolding given_up
given_up-Inv past h s (some res) v = v
given_up-Inv past h s none v =
    let id = (s.queue.entries h).id in
    record {
      queue = mark_timeout-Inv past s.queue id v.queue;
      noted = v.noted;
      answers = λ i e found. elim (put-cases h i failed (returned e) s.results found) [
        | inr old ↦ v.answers i e old
        | inl same ↦ absurd (ground (arith, same))
      ];
    }

SystemInv-later :
    (ev : Event) (timeout : ℕ) (past : List Event) (s : System)
    → SystemInv (Taken timeout past) s
    → SystemInv (Taken timeout (ev ∷ past)) s
unfolding Taken
SystemInv-later ev timeout past s v = record {
  queue =
      Inv-later (Taken timeout past) (Taken timeout (ev ∷ past)) s.queue (λ id d t. inr t) v.queue;
  answers = λ h e found.
      (let a = v.answers h e found in
        record { over = a.over; allowed = λ d is. inr (a.allowed d is) });
  noted = λ k input d found. inr (v.noted k input d found);
}

checks-Inv :
    (timeout : ℕ) (past : List Event) (k : ℕ) (claims : Claims) (input : DecideInput)
    → SystemInv (Taken timeout past) (after timeout past)
    → SystemInv
        (Taken timeout (checks k claims input ∷ past))
        (step (checks k claims input) (after timeout past))
unfolding step Taken AllowedBy
checks-Inv timeout past k claims input v =
    let s = after timeout past in
    let w = SystemInv-later (checks k claims input) timeout past s v in
    let c = decide_checks (some claims) (some input) s.queue in
    record {
      queue = w.queue;
      answers = w.answers;
      noted = λ i input' d found.
          elim (note-cases k i (passed_to input c) (some (input', d)) s.checked found) [
            | inr old ↦ w.noted i input' d old
            | inl new ↦
                (let (same, is) = passed_to-some input input' c d new in
                  subst
                    (λ (x : DecideInput).
                      Taken timeout (checks k claims input ∷ past) x.checkpoint_id d)
                    same (inl (decide_checks-Allowed claims input s.queue d is)))
          ];
    }

decided-Inv :
    (past : Takes) (k now : ℕ) (s : System) (o : Option (DecideInput × HitlDecision))
    → s.checked k ≡ o
    → SystemInv past s
    → SystemInv past (decided k now s o)
unfolding decided
decided-Inv past k now s none at v = v
decided-Inv past k now s (some (input, d)) at v = record {
  queue = decide_checked-Inv past s.queue now input d (v.noted k input d at) v.queue;
  answers = v.answers;
  noted = λ i input' d' found. elim (note-cases k i none (some (input', d')) s.checked found) [
    | inl new ↦ absurd (ground (arith, new))
    | inr old ↦ v.noted i input' d' old
  ];
}

signals-Inv :
    (past : Takes) (h : ℕ) (s : System) → SystemInv past s → SystemInv past (step (signals h) s)
unfolding step
signals-Inv past h s v = elim (Bool-cases (is_pending (s.queue.entries h).status)) [
  | inl is ↦ rw is v
  | inr isnt ↦ rw isnt (record {
    queue = signal-Inv past s.queue h isnt v.queue;
    answers = v.answers;
    noted = v.noted;
  })
]

step-Inv :
    (ev : Event) (timeout : ℕ) (past : List Event)
    → SystemInv (Taken timeout past) (after timeout past)
    → SystemInv (Taken timeout (ev ∷ past)) (step ev (after timeout past))
unfolding step
step-Inv (submits now id task_id user_id) timeout past v =
    let s = after timeout past in
    let w = SystemInv-later (submits now id task_id user_id) timeout past s v in
    record {
      queue = submit-Inv _ s.queue now id task_id user_id w.queue;
      answers = w.answers;
      noted = w.noted;
    }
step-Inv (checks k claims input) timeout past v = checks-Inv timeout past k claims input v
step-Inv (decides k now) timeout past v =
    let s = after timeout past in
    decided-Inv _ k now s (s.checked k) refl (SystemInv-later (decides k now) timeout past s v)
step-Inv (signals h) timeout past v =
    signals-Inv _ h (after timeout past) (SystemInv-later (signals h) timeout past _ v)
step-Inv (wakes h) timeout past v =
    let s = after timeout past in
    woken-Inv _ h s (s.results h) (SystemInv-later (wakes h) timeout past s v)
step-Inv (gives_up h) timeout past v =
    let s = after timeout past in
    given_up-Inv _ h s (s.results h) (SystemInv-later (gives_up h) timeout past s v)
step-Inv (ticks now) timeout past v =
    let s = after timeout past in
    let w = SystemInv-later (ticks now) timeout past s v in
    record { queue = expire-Inv _ s.queue now w.queue; answers = w.answers; noted = w.noted }

pub after-Inv :
    (timeout : ℕ) (past : List Event) → SystemInv (Taken timeout past) (after timeout past)
unfolding after new_hitl_queue lookup is_pending
after-Inv timeout [] = record {
  queue = record {
    keyed = λ id h found. absurd (ground (arith, found));
    taken = λ h d is. absurd (ground (arith, is));
    closed = λ h is. absurd (ground (arith, is));
    unused = λ h beyond. refl;
  };
  answers = λ h e found. absurd (ground (arith, found));
  noted = λ k input d found. absurd (ground (arith, found));
}
after-Inv timeout (ev ∷ past) = step-Inv ev timeout past (after-Inv timeout past)

-- Whatever happened to a new queue, in any order, between the checks of `DecideHandler` and its call of
-- `Decide` too: where a `Submit` returned its entry with a decision as its status, a call of
-- `DecideHandler` had this decision on the id of the entry, and by its checks the caller might then
-- decide the checkpoint that was pending under this id; and no `Submit` returned an entry that was
-- still pending.
pub after-allowed :
    (timeout : ℕ) (past : List Event) (h : ℕ) (e : HitlCheckpointEntry)
    → (after timeout past).results h ≡ some (returned e)
    → (is_pending e.status ≡ false)
      × ((d : HitlDecision) → e.status ≡ settled d → Taken timeout past e.id d)
after-allowed timeout past h e found =
    let a = (after-Inv timeout past).answers h e found in (a.over, a.allowed)
