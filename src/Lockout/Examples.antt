-- ===== src/Lockout/Examples.antt =====
-- The account lockout at concrete logins, and its theorem there.
use pre_code.Common.{
  retain, false, Dict, String, Option, none, some, insert, erase, lookup-erase, str_eq_refl, ℕ,
  List, ◌+◌, ◌-◌, ◌≡◌, refl, ◌&&◌, [], ◌∷◌, lookup, ltb, leb, if◌then◌else◌, arith,
}
use pre_code.Lockout.{record_failure, cleanup, AccountLockout, is_locked, get_remaining_lockout}
use pre_code.Lockout.Redis.{Redis, Answers}
use pre_code.Lockout.Attempts.{is_locked_exact}
use pre_code.Lockout.Attempts.Counting.{
  Event, fails, asks, ticks, other_fails, run, failures, latest,
}

abbrev lockout : AccountLockout
lockout = record { attempts = []; max_attempts = 3; lockout_duration = 100 }

-- A check at the end of the duration, a tick, and a failure of another account come in between.
abbrev logins : List Event
logins = fails 5 ∷ other_fails "bob" 6 ∷ asks 105 ∷ ticks 60 ∷ fails 20 ∷ asks 30 ∷ []

is_locked_exact_example :
    let failed = run "ann" (fails 1 ∷ logins) lockout in
    let over = leb 3 (1 + failures logins) in
    ((is_locked 50 "ann" failed).1 ≡ (over && ltb 50 (latest 1 logins + 100)))
    × (get_remaining_lockout 50 "ann" failed ≡ (if over then latest 1 logins + 100 - 50 else 0))
unfolding lookup
is_locked_exact_example =
    is_locked_exact "ann" 1 50 logins lockout (omega arith) refl
      (refl, (omega arith, (omega arith, (omega arith, tt))))

-- A tick after the duration drops the failures, and an account that fails slowly is never locked.
slow_unlocked :
    (is_locked 230 "ann" (run "ann" (fails 1 ∷ fails 20 ∷ ticks 130 ∷ fails 220 ∷ []) lockout)).1
    ≡ false
unfolding lookup run is_locked record_failure insert cleanup retain
slow_unlocked = refl

abbrev count_of : Option ℕ → ℕ
count_of none = 0
count_of (some n) = n

-- A server that holds strings and never fails; no key of it expires.
abbrev server : Redis
server = record {
  State = Dict String × Dict ℕ;
  get = λ k s. lookup k s.0;
  incr = λ k s. let n = count_of (lookup k s.1) + 1 in ((s.0, insert k n s.1), some n);
  expire = λ k t s. s;
  set = λ k v t s. (insert k v s.0, s.1);
  del = λ k s. (erase k s.0, erase k s.1);
  ttl = λ k s. none;
}

abbrev server_answers : Answers server
server_answers = record {
  Missing = λ k s. lookup k s.0 ≡ none;
  del-Missing = λ k s. rw (lookup-erase k k s.0, str_eq_refl k) refl;
  get-Missing = λ k s h. h;
}

abbrev records : Dict String × Dict ℕ
records = (("lockout:ann", "true") ∷ [], ("attempts:ann", 2) ∷ [])
