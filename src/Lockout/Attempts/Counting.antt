-- ===== src/Lockout/Attempts/Counting.antt =====
-- What an account is known for after failed logins, whatever comes in between.
use mathlib.Core.Option.{some-injective}
use pre_code.Common.{
  suc, ◌≤◌, sym, ap, ◌∙◌, Option, Dict, insert, retain, eq_iff, lookup-erase, str_eq, ℕ, ◌+◌, ◌≡◌,
  refl, subst, Bool, true, false, none, some, List, [], ◌∷◌, String, lookup, lookup-insert, ltb,
  leb, str_eq_refl, if◌then◌else◌, arith, Bool-cases, inl, inr,
}
use pre_code.Lockout.{
  is_over, cleanup, record_success, LockoutState, AccountLockout, checked, is_locked,
  record_failure, entry_or_new, fail_entry, check_entry,
}

-- What happens, with the account and the others apart; the account does not log in.
pub data Event : Type 0 where
  fails asks ticks : ℕ → Event
  other_fails other_asks : String → ℕ → Event
  other_succeeds : String → Event

unfoldable pub step : String → Event → AccountLockout → AccountLockout
step id (fails t) al = record_failure t id al
step id (asks t) al = (is_locked t id al).0
step id (ticks t) al = cleanup t al
step id (other_fails other t) al = record_failure t other al
step id (other_asks other t) al = (is_locked t other al).0
step id (other_succeeds other) al = record_success other al

-- The earliest first.
unfoldable pub run : String → List Event → AccountLockout → AccountLockout
unfolding step
run id [] al = al
run id (e ∷ es) al = run id es (step id e al)

-- The failures, and the time of the last of them.
abbrev pub failures : List Event → ℕ
failures [] = 0
failures (fails t ∷ es) = suc (failures es)
failures (_ ∷ es) = failures es

abbrev pub latest : ℕ → List Event → ℕ
latest last [] = last
latest last (fails t ∷ es) = latest t es
latest last (_ ∷ es) = latest last es

-- The account is asked for, and the cleanup runs, no later than the duration after the failure
-- before; the others are others.
abbrev pub Timely : String → ℕ → ℕ → List Event → Type 0
Timely id duration last [] = Unit
Timely id duration last (fails t ∷ es) = Timely id duration t es
Timely id duration last (asks t ∷ es) = (t ≤ last + duration) × Timely id duration last es
Timely id duration last (ticks t ∷ es) = (t ≤ last + duration) × Timely id duration last es
Timely id duration last (other_fails other t ∷ es) =
    (str_eq other id ≡ false) × Timely id duration last es
Timely id duration last (other_asks other t ∷ es) =
    (str_eq other id ≡ false) × Timely id duration last es
Timely id duration last (other_succeeds other ∷ es) =
    (str_eq other id ≡ false) × Timely id duration last es

-- `delete` and the cleanup leave an entry that they are not for.
lookup-retain_kept :
    (p : String → LockoutState → Bool) (k : String) (s : LockoutState) (d : Dict LockoutState)
    → p k s ≡ true
    → lookup k d ≡ some s
    → lookup k (retain p d) ≡ some s
unfolding lookup retain
lookup-retain_kept p k s [] kept h = h
lookup-retain_kept p k s ((i, w) ∷ d) kept h = elim (Bool-cases (str_eq i k)) [
  | inl is ↦
      (let same : w ≡ s = some-injective _ _ (sym (rw is refl) ∙ h) in
        let ids : i ≡ k = (eq_iff i k).0 is in rw (same, ids, kept) (rw (str_eq_refl k) refl))
  | inr other ↦
      (let rest = lookup-retain_kept p k s d kept (sym (rw other refl) ∙ h) in
        elim (Bool-cases (p i w)) [ inl stays ↦ rw (stays, other) rest | inr goes ↦ rw goes rest ])
]

module _ (max duration : ℕ) (id : String) where
  -- The entry after `n` failures of which the last was at `last`.
  pub record Counted (n last : ℕ) (al : AccountLockout) : Type 0 where
    pub at_most : al.max_attempts ≡ max
    pub lasts : al.lockout_duration ≡ duration
    pub entry : LockoutState
    pub found : lookup id al.attempts ≡ some entry
    pub failed : entry.failed_attempts ≡ n
    pub locked : entry.locked_until ≡ (if leb max n then some (last + duration) else none)
    pub at : entry.last_attempt ≡ last

  fails-Counted :
      (n last t : ℕ) (al : AccountLockout)
      → Counted n last al
      → Counted (suc n) t (record_failure t id al)
  unfolding record_failure entry_or_new fail_entry
  fails-Counted n last t al c = record {
    at_most = c.at_most;
    lasts = c.lasts;
    entry = fail_entry max duration t c.entry;
    found =
        lookup-insert id id _ al.attempts ∙ rw (str_eq_refl id, c.found, c.at_most, c.lasts) refl;
    failed = ground (arith, c.failed);
    locked = ground (arith, c.failed, c.locked);
    at = ground arith;
  }

  checked-kept :
      (n last t : ℕ) (s : LockoutState)
      → s.locked_until ≡ (if leb max n then some (last + duration) else none)
      → t ≤ last + duration
      → (checked t s.locked_until s).0 ≡ s
  unfolding checked
  checked-kept n last t s locked soon = elim (Bool-cases (leb max n)) [
    | inr no_lock ↦
        let free : s.locked_until ≡ none = locked ∙ rw no_lock refl in
        ap (λ (o : Option ℕ). (checked t o s).0) free
    | inl locks ↦
        let shut : s.locked_until ≡ some (last + duration) = locked ∙ rw locks refl in
        ap (λ (o : Option ℕ). (checked t o s).0) shut
        ∙ (elim (Bool-cases (ltb t (last + duration))) [
          | inl before ↦ rw before refl
          | inr now ↦
              (let late : ltb (last + duration) t ≡ false = ground (arith, soon) in
                rw now (rw late refl))
        ])
  ]

  check_entry-Counted :
      (n last t : ℕ) (al : AccountLockout) (o : Option LockoutState)
      → lookup id al.attempts ≡ o
      → Counted n last al
      → t ≤ last + duration
      → Counted n last (check_entry t id al o).0
  unfolding check_entry
  check_entry-Counted n last t al none h c soon = c
  check_entry-Counted n last t al (some s) h c soon =
      let same : c.entry ≡ s = some-injective _ _ (sym c.found ∙ h) in
      let kept = checked-kept n last t c.entry c.locked soon in
      record {
        at_most = c.at_most;
        lasts = c.lasts;
        entry = c.entry;
        found =
            lookup-insert id id _ al.attempts
            ∙ rw (str_eq_refl id) (
                ap (λ (x : LockoutState). some (checked t x.locked_until x).0) (sym same)
                ∙ ap (λ (x : LockoutState). some x) kept);
        failed = c.failed;
        locked = c.locked;
        at = c.at;
      }

  -- A write to another key.
  other-Counted :
      (n last : ℕ) (al : AccountLockout) (other : String) (s : LockoutState)
      → str_eq other id ≡ false
      → Counted n last al
      → Counted n last (record al { attempts = insert other s al.attempts })
  other-Counted n last al other s apart c = record {
    at_most = c.at_most;
    lasts = c.lasts;
    entry = c.entry;
    found = lookup-insert other id s al.attempts ∙ rw apart c.found;
    failed = c.failed;
    locked = c.locked;
    at = c.at;
  }

  other_asks-Counted :
      (n last t : ℕ) (al : AccountLockout) (other : String) (o : Option LockoutState)
      → str_eq other id ≡ false
      → Counted n last al
      → Counted n last (check_entry t other al o).0
  unfolding check_entry
  other_asks-Counted n last t al other none apart c = c
  other_asks-Counted n last t al other (some s) apart c = other-Counted n last al other _ apart c

  is_over-kept :
      (n last t : ℕ) (s : LockoutState)
      → s.locked_until ≡ (if leb max n then some (last + duration) else none)
      → s.last_attempt ≡ last
      → t ≤ last + duration
      → is_over t duration s s.locked_until ≡ false
  unfolding is_over
  is_over-kept n last t s locked at soon = elim (Bool-cases (leb max n)) [
    | inr no_lock ↦
        let free : s.locked_until ≡ none = locked ∙ rw no_lock refl in
        ap (λ (o : Option ℕ). is_over t duration s o) free ∙ ground (arith, at, soon)
    | inl locks ↦
        let shut : s.locked_until ≡ some (last + duration) = locked ∙ rw locks refl in
        ap (λ (o : Option ℕ). is_over t duration s o) shut ∙ ground (arith, soon)
  ]

  ticks-Counted :
      (n last t : ℕ) (al : AccountLockout)
      → Counted n last al
      → t ≤ last + duration
      → Counted n last (cleanup t al)
  unfolding cleanup
  ticks-Counted n last t al c soon = record {
    at_most = c.at_most;
    lasts = c.lasts;
    entry = c.entry;
    found =
        lookup-retain_kept _ id c.entry al.attempts
          (rw (c.lasts, is_over-kept n last t c.entry c.locked c.at soon) refl) c.found;
    failed = c.failed;
    locked = c.locked;
    at = c.at;
  }

  succeeds-Counted :
      (n last : ℕ) (al : AccountLockout) (other : String)
      → str_eq other id ≡ false
      → Counted n last al
      → Counted n last (record_success other al)
  unfolding record_success
  succeeds-Counted n last al other apart c = record {
    at_most = c.at_most;
    lasts = c.lasts;
    entry = c.entry;
    found = lookup-erase other id al.attempts ∙ rw apart c.found;
    failed = c.failed;
    locked = c.locked;
    at = c.at;
  }

  pub run-Counted :
      (es : List Event) (n last : ℕ) (al : AccountLockout)
      → Timely id duration last es
      → Counted n last al
      → Counted (n + failures es) (latest last es) (run id es al)
  unfolding run is_locked record_failure
  run-Counted [] n last al timely c = subst (λ (m : ℕ). Counted m last al) (omega arith) c
  run-Counted (fails t ∷ es) n last al timely c =
      subst (λ (m : ℕ). Counted m (latest t es) (run id es (record_failure t id al))) (omega arith)
        (run-Counted es (suc n) t (record_failure t id al) timely (fails-Counted n last t al c))
  run-Counted (asks t ∷ es) n last al timely c =
      run-Counted es n last _ timely.1
        (check_entry-Counted n last t al (lookup id al.attempts) refl c timely.0)
  run-Counted (ticks t ∷ es) n last al timely c =
      run-Counted es n last _ timely.1 (ticks-Counted n last t al c timely.0)
  run-Counted (other_fails other t ∷ es) n last al timely c =
      run-Counted es n last _ timely.1 (other-Counted n last al other _ timely.0 c)
  run-Counted (other_asks other t ∷ es) n last al timely c =
      run-Counted es n last _ timely.1
        (other_asks-Counted n last t al other (lookup other al.attempts) timely.0 c)
  run-Counted (other_succeeds other ∷ es) n last al timely c =
      run-Counted es n last _ timely.1 (succeeds-Counted n last al other timely.0 c)
