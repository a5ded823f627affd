-- ===== src/Hitl/Steps/Invariant.antt =====
-- The invariant of the queue.
use pre_code.Common.{
  ℕ, ◌<◌, ◌≤◌, ◌==◌, ◌≡◌, refl, sym, ◌∙◌, ap, subst, ◌⊎◌, inl, inr, true, false, Option, none, some,
  [], ◌∷◌, String, Dict, lookup, insert, erase, lookup-insert, erase-cases, str_eq, eq_iff, ltb,
  arith, Bool-cases,
}
use mathlib.Core.Bool.{true≢false}
use mathlib.Core.Option.{some-injective}
use pre_code.Hitl.{
  HitlDecision, Status, settled, timed_out, HitlCheckpointEntry, HitlQueue, is_pending, write,
  submitted, submit, decide, decide_found, signal_decision, mark_timeout, mark_found, expire,
  expire_all, expire_one, expire_found,
}

-- Of which ids which decisions were taken.
abbrev pub Takes : Type 1
Takes = String → HitlDecision → Type 0

-- What is known of the queue: the pending map leads to pending entries of its ids, a decision was
-- taken, and a closed channel belongs to an entry that is no longer pending.
pub record Inv (past : Takes) (q : HitlQueue) : Type 0 where
  pub keyed :
      (id : String) (h : ℕ)
      → lookup id q.pending ≡ some h
      → ((q.entries h).id ≡ id) × (is_pending (q.entries h).status ≡ true) × (h < q.next)
  pub taken :
      (h : ℕ) (d : HitlDecision) → (q.entries h).status ≡ settled d → past (q.entries h).id d
  pub closed :
      (h : ℕ) → (q.entries h).decision_closed ≡ true → is_pending (q.entries h).status ≡ false
  pub unused : (h : ℕ) → q.next ≤ h → is_pending (q.entries h).status ≡ true

pub write-cases :
    (h i : ℕ) (e : HitlCheckpointEntry) (entries : ℕ → HitlCheckpointEntry)
    → ((i ≡ h) × (write h e entries i ≡ e)) ⊎ (write h e entries i ≡ entries i)
write-cases h i e entries = elim (Bool-cases (i == h)) [
  | inl is ↦ inl (ground (arith, is), rw is refl)
  | inr other ↦ inr (rw other refl)
]

-- More was taken.
pub Inv-later :
    (past past' : Takes) (q : HitlQueue)
    → ((id : String) (d : HitlDecision) → past id d → past' id d)
    → Inv past q
    → Inv past' q
Inv-later past past' q more v = record {
  keyed = v.keyed;
  taken = λ h d is. more (q.entries h).id d (v.taken h d is);
  closed = v.closed;
  unused = v.unused;
}

-- An entry of the pending map that leaves it.
leave-Inv :
    (past : Takes) (q : HitlQueue) (id : String) (h : ℕ) (e : HitlCheckpointEntry)
    → lookup id q.pending ≡ some h
    → is_pending e.status ≡ false
    → ((d : HitlDecision) → e.status ≡ settled d → past e.id d)
    → Inv past q
    → Inv past (record q { pending = erase id q.pending; entries = write h e q.entries })
leave-Inv past q id h e found over took v = record {
  keyed = λ id' h' found'.
      (let (other, found'') = erase-cases id id' h' q.pending found' in
        let k = v.keyed id' h' found'' in
        elim (write-cases h h' e q.entries) [
          | inl (same, at) ↦
              (let ids : id ≡ id' =
                  sym (v.keyed id h found).0 ∙ ap (λ (i : ℕ). (q.entries i).id) (sym same) ∙ k.0 in
                absurd (true≢false (sym ((eq_iff id id').1 ids) ∙ other)))
          | inr at ↦ rw at k
        ]);
  taken = λ h' d is. elim (write-cases h h' e q.entries) [
    | inl (same, at) ↦
        subst (λ (x : HitlCheckpointEntry). past x.id d) (sym at)
          (took d (sym (ap (λ (x : HitlCheckpointEntry). x.status) at) ∙ is))
    | inr at ↦
        subst (λ (x : HitlCheckpointEntry). past x.id d) (sym at)
          (v.taken h' d (sym (ap (λ (x : HitlCheckpointEntry). x.status) at) ∙ is))
  ];
  closed = λ h' is. elim (write-cases h h' e q.entries) [
    | inl (same, at) ↦ ap (λ (x : HitlCheckpointEntry). is_pending x.status) at ∙ over
    | inr at ↦
        ap (λ (x : HitlCheckpointEntry). is_pending x.status) at
        ∙ v.closed h' (sym (ap (λ (x : HitlCheckpointEntry). x.decision_closed) at) ∙ is)
  ];
  unused = λ h' beyond. elim (write-cases h h' e q.entries) [
    | inl (same, at) ↦ absurd (omega (arith, beyond, same, (v.keyed id h found).2))
    | inr at ↦ ap (λ (x : HitlCheckpointEntry). is_pending x.status) at ∙ v.unused h' beyond
  ];
}

pub submit-Inv :
    (past : Takes) (q : HitlQueue) (now : ℕ) (id task_id user_id : String)
    → Inv past q
    → Inv past (submit now id task_id user_id q)
unfolding submit is_pending
submit-Inv past q now id task_id user_id v =
    let e = submitted now id task_id user_id q.timeout in
    record {
      keyed = λ id' h' found. elim (Bool-cases (str_eq id id')) [
        | inl is ↦
            (let at_id : lookup id' (insert id q.next q.pending) ≡ some q.next =
                lookup-insert id id' q.next q.pending ∙ rw is refl in
              let new : q.next ≡ h' = some-injective _ _ (sym at_id ∙ found) in
              let same : id ≡ id' = (eq_iff id id').0 is in ground (arith, new, same))
        | inr other ↦
            (let kept : lookup id' (insert id q.next q.pending) ≡ lookup id' q.pending =
                lookup-insert id id' q.next q.pending ∙ rw other refl in
              let k = v.keyed id' h' (sym kept ∙ found) in ground (arith, k))
      ];
      taken = λ h' d is. elim (write-cases q.next h' e q.entries) [
        | inl (same, at) ↦
            absurd (ground (arith, sym (ap (λ (x : HitlCheckpointEntry). x.status) at) ∙ is))
        | inr at ↦
            subst (λ (x : HitlCheckpointEntry). past x.id d) (sym at)
              (v.taken h' d (sym (ap (λ (x : HitlCheckpointEntry). x.status) at) ∙ is))
      ];
      closed = λ h' is. elim (write-cases q.next h' e q.entries) [
        | inl (same, at) ↦
            absurd (true≢false (sym is ∙ ap (λ (x : HitlCheckpointEntry). x.decision_closed) at))
        | inr at ↦
            ap (λ (x : HitlCheckpointEntry). is_pending x.status) at
            ∙ v.closed h' (sym (ap (λ (x : HitlCheckpointEntry). x.decision_closed) at) ∙ is)
      ];
      unused = λ h' beyond. elim (write-cases q.next h' e q.entries) [
        | inl (same, at) ↦ ap (λ (x : HitlCheckpointEntry). is_pending x.status) at
        | inr at ↦
            ap (λ (x : HitlCheckpointEntry). is_pending x.status) at
            ∙ v.unused h' (omega (arith, beyond))
      ];
    }

decided-same : (d d' : HitlDecision) → settled d ≡ settled d' → d ≡ d'
decided-same d d' is = ap (λ (s : Status). elim s [ settled x ↦ x | _ ↦ d ]) is

decide_found-Inv :
    (past : Takes) (q : HitlQueue) (now : ℕ) (id : String) (d : HitlDecision) (text : String)
    (o : Option ℕ)
    → lookup id q.pending ≡ o
    → ((h : ℕ) → o ≡ some h → past (q.entries h).id d)
    → Inv past q
    → Inv past (decide_found now id d text q o).0
unfolding decide_found is_pending
decide_found-Inv past q now id d text none found took v = v
decide_found-Inv past q now id d text (some h) found took v =
    elim (Bool-cases (is_pending (q.entries h).status)) [
      | inl is ↦ rw is (
          leave-Inv past q id h
            (record (q.entries h) {
              decision = some d;
              modified_data = text;
              decided_at = some now;
              status = settled d;
            })
            found refl
            (λ d' same.
              subst (λ (x : HitlDecision). past (q.entries h).id x) (decided-same d d' same)
                (took h refl))
            v)
      | inr isnt ↦ rw isnt v
    ]

pub signal-Inv :
    (past : Takes) (q : HitlQueue) (h : ℕ)
    → is_pending (q.entries h).status ≡ false
    → Inv past q
    → Inv past (signal_decision h q)
unfolding signal_decision
signal-Inv past q h over v = elim (Bool-cases (q.entries h).decision_closed) [
  | inl is ↦ rw is v
  | inr isnt ↦ rw isnt (
      let e = record (q.entries h) { decision_closed = true } in
      record {
        keyed = λ id h' found.
            (let k = v.keyed id h' found in
              elim (write-cases h h' e q.entries) [
                | inl (same, at) ↦ absurd (
                    true≢false
                      (sym k.1 ∙ ap (λ (i : ℕ). is_pending (q.entries i).status) same ∙ over))
                | inr at ↦ rw at k
              ]);
        taken = λ h' d is. elim (write-cases h h' e q.entries) [
          | inl (same, at) ↦
              subst (λ (x : HitlCheckpointEntry). past x.id d) (sym at)
                (v.taken h d (sym (ap (λ (x : HitlCheckpointEntry). x.status) at) ∙ is))
          | inr at ↦
              subst (λ (x : HitlCheckpointEntry). past x.id d) (sym at)
                (v.taken h' d (sym (ap (λ (x : HitlCheckpointEntry). x.status) at) ∙ is))
        ];
        closed = λ h' is. elim (write-cases h h' e q.entries) [
          | inl (same, at) ↦ ap (λ (x : HitlCheckpointEntry). is_pending x.status) at ∙ over
          | inr at ↦
              ap (λ (x : HitlCheckpointEntry). is_pending x.status) at
              ∙ v.closed h' (sym (ap (λ (x : HitlCheckpointEntry). x.decision_closed) at) ∙ is)
        ];
        unused = λ h' beyond. elim (write-cases h h' e q.entries) [
          | inl (same, at) ↦
              ap (λ (x : HitlCheckpointEntry). is_pending x.status) at
              ∙ v.unused h (omega (arith, beyond, same))
          | inr at ↦ ap (λ (x : HitlCheckpointEntry). is_pending x.status) at ∙ v.unused h' beyond
        ];
      })
]

mark_found-Inv :
    (past : Takes) (q : HitlQueue) (id : String) (o : Option ℕ)
    → lookup id q.pending ≡ o
    → Inv past q
    → Inv past (mark_found id q o)
unfolding mark_found is_pending
mark_found-Inv past q id none found v = v
mark_found-Inv past q id (some h) found v =
    leave-Inv past q id h (record (q.entries h) { status = timed_out }) found refl
      (λ d same. absurd (ground (arith, same))) v

expire_found-Inv :
    (past : Takes) (q : HitlQueue) (now : ℕ) (id : String) (o : Option ℕ)
    → lookup id q.pending ≡ o
    → Inv past q
    → Inv past (expire_found now id q o)
unfolding expire_found is_pending
expire_found-Inv past q now id none found v = v
expire_found-Inv past q now id (some h) found v =
    elim (Bool-cases (ltb (q.entries h).expires_at now)) [
      | inl is ↦ rw is (
          leave-Inv past q id h
            (record (q.entries h) { status = timed_out; decision_closed = true }) found refl
            (λ d same. absurd (ground (arith, same))) v)
      | inr isnt ↦ rw isnt v
    ]

pub expire_one-Inv :
    (past : Takes) (q : HitlQueue) (now : ℕ) (id : String)
    → Inv past q
    → Inv past (expire_one now id q)
unfolding expire_one
expire_one-Inv past q now id v = expire_found-Inv past q now id (lookup id q.pending) refl v

expire_all-Inv :
    (past : Takes) (now : ℕ) (d : Dict ℕ) (q : HitlQueue)
    → Inv past q
    → Inv past (expire_all now d q)
unfolding expire_all
expire_all-Inv past now [] q v = v
expire_all-Inv past now ((id, h) ∷ d) q v =
    expire_all-Inv past now d (expire_one now id q) (expire_one-Inv past q now id v)

pub decide-Inv :
    (past : Takes) (q : HitlQueue) (now : ℕ) (id : String) (d : HitlDecision) (text : String)
    → ((h : ℕ) → lookup id q.pending ≡ some h → past (q.entries h).id d)
    → Inv past q
    → Inv past (decide now id d text q).0
unfolding decide
decide-Inv past q now id d text took v =
    decide_found-Inv past q now id d text (lookup id q.pending) refl took v

pub mark_timeout-Inv :
    (past : Takes) (q : HitlQueue) (id : String) → Inv past q → Inv past (mark_timeout id q)
unfolding mark_timeout
mark_timeout-Inv past q id v = mark_found-Inv past q id (lookup id q.pending) refl v

pub expire-Inv : (past : Takes) (q : HitlQueue) (now : ℕ) → Inv past q → Inv past (expire now q)
unfolding expire
expire-Inv past q now v = expire_all-Inv past now q.pending q v
