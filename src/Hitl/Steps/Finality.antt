-- ===== src/Hitl/Steps/Finality.antt =====
-- What is decided stays decided.
use pre_code.Common.{
  ℕ, ◌≡◌, refl, sym, ◌∙◌, ap, inl, inr, true, false, Option, none, some, List, [], ◌∷◌, ◌++◌,
  String, Dict, lookup, ltb, arith, Bool-cases,
}
use mathlib.Core.Bool.{true≢false}
use pre_code.Hitl.{
  HitlDecision, HitlCheckpointEntry, HitlQueue, DecideInput, is_pending, write, submit, submitted,
  decide, decide_found, signal_decision, mark_timeout, mark_found, expire, expire_all, expire_one,
  expire_found, decide_checked, replied,
}
use pre_code.Hitl.Steps.{
  Result, System, Event, submits, checks, decides, signals, wakes, gives_up, ticks, woken, given_up,
  step, after, Taken, decided,
}
use pre_code.Hitl.Steps.Invariant.{Takes, Inv, write-cases, expire_one-Inv}
use pre_code.Hitl.Steps.Decisions.{after-Inv}

-- All of an entry but whether its channel is closed.
abbrev pub sealed : HitlCheckpointEntry → HitlCheckpointEntry
sealed e = record e { decision_closed = false }

-- A write to a pending entry leaves one that is not pending.
write-leaves :
    (q : HitlQueue) (h i : ℕ) (e : HitlCheckpointEntry)
    → is_pending (q.entries h).status ≡ true
    → is_pending (q.entries i).status ≡ false
    → write h e q.entries i ≡ q.entries i
write-leaves q h i e waits over = elim (write-cases h i e q.entries) [
  | inl (same, at) ↦
      absurd
        (true≢false (sym waits ∙ ap (λ (j : ℕ). is_pending (q.entries j).status) (sym same) ∙ over))
  | inr at ↦ at
]

module _ (past : Takes) (i : ℕ) where
  -- The queue changed, but not the entry.
  abbrev Seals : HitlQueue → HitlQueue → Type 0
  Seals q q' = sealed (q'.entries i) ≡ sealed (q.entries i)

  submit-Seals :
      (q : HitlQueue) (now : ℕ) (id task_id user_id : String)
      → Inv past q
      → is_pending (q.entries i).status ≡ false
      → Seals q (submit now id task_id user_id q)
  unfolding submit
  submit-Seals q now id task_id user_id v over =
      ap (λ (e : HitlCheckpointEntry). sealed e)
        (write-leaves q q.next i (submitted now id task_id user_id q.timeout)
          (v.unused q.next (omega arith)) over)

  decide_found-Seals :
      (q : HitlQueue) (now : ℕ) (id : String) (d : HitlDecision) (text : String) (o : Option ℕ)
      → is_pending (q.entries i).status ≡ false
      → Seals q (decide_found now id d text q o).0
  unfolding decide_found
  decide_found-Seals q now id d text none over = refl
  decide_found-Seals q now id d text (some h) over =
      elim (Bool-cases (is_pending (q.entries h).status)) [
        | inl is ↦ rw is (ap (λ (e : HitlCheckpointEntry). sealed e) (write-leaves q h i _ is over))
        | inr isnt ↦ rw isnt refl
      ]

  replied-Seals : (q : HitlQueue) (x : HitlQueue × Option ℕ) → Seals q x.0 → Seals q (replied x).0
  unfolding replied
  replied-Seals q (q', none) s = s
  replied-Seals q (q', some h) s = s

  decide_checked-Seals :
      (q : HitlQueue) (now : ℕ) (input : DecideInput) (d : HitlDecision)
      → is_pending (q.entries i).status ≡ false
      → Seals q (decide_checked now input d q).0
  unfolding decide_checked decide
  decide_checked-Seals q now input d over =
      replied-Seals q (decide now input.checkpoint_id d input.modified_data q) (
        decide_found-Seals q now input.checkpoint_id d input.modified_data
          (lookup input.checkpoint_id q.pending) over)

  decided-Seals :
      (k now : ℕ) (s : System) (o : Option (DecideInput × HitlDecision))
      → is_pending (s.queue.entries i).status ≡ false
      → Seals s.queue (decided k now s o).queue
  unfolding decided
  decided-Seals k now s none over = refl
  decided-Seals k now s (some (input, d)) over = decide_checked-Seals s.queue now input d over

  signal-Seals : (q : HitlQueue) (h : ℕ) → Seals q (signal_decision h q)
  unfolding signal_decision
  signal-Seals q h = elim (Bool-cases (q.entries h).decision_closed) [
    | inl is ↦ simp is refl
    | inr isnt ↦
        simp isnt
          (elim (write-cases h i (record (q.entries h) { decision_closed = true }) q.entries) [
            | inl (same, at) ↦
                ap (λ (e : HitlCheckpointEntry). sealed e) at
                ∙ ap (λ (j : ℕ). sealed (q.entries j)) (sym same)
            | inr at ↦ ap (λ (e : HitlCheckpointEntry). sealed e) at
          ])
  ]

  mark_found-Seals :
      (q : HitlQueue) (id : String) (o : Option ℕ)
      → lookup id q.pending ≡ o
      → Inv past q
      → is_pending (q.entries i).status ≡ false
      → Seals q (mark_found id q o)
  unfolding mark_found
  mark_found-Seals q id none found v over = refl
  mark_found-Seals q id (some h) found v over =
      ap (λ (e : HitlCheckpointEntry). sealed e) (write-leaves q h i _ (v.keyed id h found).1 over)

  expire_found-Seals :
      (q : HitlQueue) (now : ℕ) (id : String) (o : Option ℕ)
      → lookup id q.pending ≡ o
      → Inv past q
      → is_pending (q.entries i).status ≡ false
      → Seals q (expire_found now id q o)
  unfolding expire_found
  expire_found-Seals q now id none found v over = refl
  expire_found-Seals q now id (some h) found v over =
      elim (Bool-cases (ltb (q.entries h).expires_at now)) [
        | inl is ↦ rw is (
            ap (λ (e : HitlCheckpointEntry). sealed e)
              (write-leaves q h i _ (v.keyed id h found).1 over))
        | inr isnt ↦ rw isnt refl
      ]

  -- From one state to the next.
  over-kept :
      (q q' : HitlQueue)
      → Seals q q'
      → is_pending (q.entries i).status ≡ false
      → is_pending (q'.entries i).status ≡ false
  over-kept q q' s over = ap (λ (e : HitlCheckpointEntry). is_pending e.status) s ∙ over

  expire_all-Seals :
      (now : ℕ) (d : Dict ℕ) (q : HitlQueue)
      → Inv past q
      → is_pending (q.entries i).status ≡ false
      → Seals q (expire_all now d q)
  unfolding expire_all expire_one
  expire_all-Seals now [] q v over = refl
  expire_all-Seals now ((id, h) ∷ d) q v over =
      let q' = expire_one now id q in
      let s = expire_found-Seals q now id (lookup id q.pending) refl v over in
      expire_all-Seals now d q' (expire_one-Inv past q now id v) (over-kept q q' s over) ∙ s

  woken-Seals : (h : ℕ) (s : System) (o : Option Result) → Seals s.queue (woken h s o).queue
  unfolding woken
  woken-Seals h s none = elim (Bool-cases (s.queue.entries h).decision_closed) [
    | inl is ↦ simp is refl
    | inr isnt ↦ simp isnt refl
  ]
  woken-Seals h s (some res) = refl

  given_up-Seals :
      (h : ℕ) (s : System) (o : Option Result)
      → Inv past s.queue
      → is_pending (s.queue.entries i).status ≡ false
      → Seals s.queue (given_up h s o).queue
  unfolding given_up mark_timeout
  given_up-Seals h s none v over = mark_found-Seals s.queue _ _ refl v over
  given_up-Seals h s (some res) v over = refl

  signals-Seals : (h : ℕ) (s : System) → Seals s.queue (step (signals h) s).queue
  unfolding step
  signals-Seals h s = elim (Bool-cases (is_pending (s.queue.entries h).status)) [
    | inl is ↦ rw is refl
    | inr isnt ↦ rw isnt (signal-Seals s.queue h)
  ]

  step-Seals :
      (ev : Event) (s : System)
      → Inv past s.queue
      → is_pending (s.queue.entries i).status ≡ false
      → Seals s.queue (step ev s).queue
  unfolding step expire
  step-Seals (submits now id task_id user_id) s v over =
      submit-Seals s.queue now id task_id user_id v over
  step-Seals (checks k claims input) s v over = refl
  step-Seals (decides k now) s v over = decided-Seals k now s (s.checked k) over
  step-Seals (signals h) s v over = signals-Seals h s
  step-Seals (wakes h) s v over = woken-Seals h s (s.results h)
  step-Seals (gives_up h) s v over = given_up-Seals h s (s.results h) v over
  step-Seals (ticks now) s v over = expire_all-Seals now s.queue.pending s.queue v over

-- An entry that was decided or timed out, after whatever happened to a new queue: whatever happens
-- later, later decisions on the same id included, its id, user, status, decision, text and time of
-- decision stay as they are.
pub after-sealed :
    (timeout : ℕ) (past later : List Event) (h : ℕ)
    → is_pending ((after timeout past).queue.entries h).status ≡ false
    → sealed ((after timeout (later ++ past)).queue.entries h)
      ≡ sealed ((after timeout past).queue.entries h)
unfolding after
after-sealed timeout past [] h over = refl
after-sealed timeout past (ev ∷ later) h over =
    let s = after timeout (later ++ past) in
    let before = after-sealed timeout past later h over in
    step-Seals (Taken timeout (later ++ past)) h ev s (after-Inv timeout (later ++ past)).queue
      (over-kept (Taken timeout past) h (after timeout past).queue s.queue before over)
    ∙ before
