-- ===== src/Lockout/Attempts.antt =====
-- When an account is locked.
pub mod Counting
use mathlib.Core.Option.{some-injective}
use pre_code.Common.{
  suc, ◌≤◌, sym, ap, ◌∙◌, Option, Dict, insert, retain, eq_iff, lookup-erase, str_eq, ℕ, ◌+◌, ◌-◌,
  ◌<◌, ◌≡◌, refl, subst, Bool, true, false, ◌&&◌, none, some, List, [], ◌∷◌, String, lookup,
  lookup-insert, length, ltb, leb, str_eq_refl, if◌then◌else◌, arith, Bool-cases, inl, inr,
}
use pre_code.Lockout.{
  is_over, cleanup, record_success, LockoutState, AccountLockout, checked, is_locked,
  record_failure, get_remaining_lockout, entry_or_new, fail_entry, check_entry, remaining_of,
  remaining_entry,
}
use pre_code.Lockout.Attempts.Counting.{
  Event, fails, run, failures, latest, Timely, Counted, run-Counted,
}

check_entry-verdict :
    (now last : ℕ) (id : String) (al : AccountLockout) (b : Bool) (s : LockoutState)
    → s.locked_until ≡ (if b then some last else none)
    → ((check_entry now id al (some s)).1 ≡ (b && ltb now last))
      × (remaining_entry now (some s) ≡ (if b then last - now else 0))
unfolding check_entry checked remaining_entry remaining_of
check_entry-verdict now last id al true s h = (
  simp h (elim (Bool-cases (ltb now last)) [
    | inl is ↦ rw is refl
    | inr not_yet ↦ rw not_yet (ground arith)
  ]),
  simp h refl,
)
check_entry-verdict now last id al false s h = (simp h refl, simp h refl)

is_locked-verdict :
    (now last : ℕ) (id : String) (al : AccountLockout) (b : Bool) (s : LockoutState)
    → lookup id al.attempts ≡ some s
    → s.locked_until ≡ (if b then some last else none)
    → ((is_locked now id al).1 ≡ (b && ltb now last))
      × (get_remaining_lockout now id al ≡ (if b then last - now else 0))
unfolding is_locked get_remaining_lockout
is_locked-verdict now last id al b s e h = rw e (check_entry-verdict now last id al b s h)

-- The first failure of an account that was not known.
first_failure-Counted :
    (id : String) (t : ℕ) (al : AccountLockout)
    → 0 < al.max_attempts
    → lookup id al.attempts ≡ none
    → Counted al.max_attempts al.lockout_duration id 1 t (record_failure t id al)
unfolding record_failure entry_or_new fail_entry
first_failure-Counted id t al pos h = record {
  at_most = refl;
  lasts = refl;
  entry = fail_entry al.max_attempts al.lockout_duration t (entry_or_new none);
  found = lookup-insert id id _ al.attempts ∙ rw (str_eq_refl id, h) refl;
  failed = ground arith;
  locked = ground (arith, pos);
  at = ground arith;
}

-- In a lockout with a positive maximum, an account that was not known fails at a time, and then
-- anything happens but that it logs in: further failures, and checks of the account and cleanups no
-- later than the duration after the failure before, and whatever other accounts do. It is locked
-- exactly if its failures are at least the maximum and the time is before the end of the duration that
-- follows the last of them; the remaining time that is reported is then the rest of that duration, and
-- 0 after fewer failures.
pub is_locked_exact :
    (id : String) (t now : ℕ) (es : List Event) (al : AccountLockout)
    → 0 < al.max_attempts
    → lookup id al.attempts ≡ none
    → Timely id al.lockout_duration t es
    → let failed = run id (fails t ∷ es) al in
      let over = leb al.max_attempts (1 + failures es) in
      ((is_locked now id failed).1 ≡ (over && ltb now (latest t es + al.lockout_duration)))
      × (get_remaining_lockout now id failed
          ≡ (if over then latest t es + al.lockout_duration - now else 0))
unfolding run
is_locked_exact id t now es al pos h timely =
    let c =
      run-Counted al.max_attempts al.lockout_duration id es 1 t (record_failure t id al) timely
        (first_failure-Counted id t al pos h) in
    is_locked-verdict now (latest t es + al.lockout_duration) id (run id (fails t ∷ es) al)
      (leb al.max_attempts (1 + failures es)) c.entry c.found c.locked
