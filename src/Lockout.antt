-- ===== src/Lockout.antt =====
-- Account lockout after failed logins (internal/middleware/lockout.go), in memory. The mutex makes
-- each method one step; times and durations are nanoseconds. The version over Redis is in
-- `Lockout.Redis`.
pub mod Attempts
pub mod Redis
mod Examples
use pre_code.Common.{
  ℕ, ◌+◌, ◌-◌, Bool, true, false, Option, none, some, [], String, Dict, lookup, insert, erase,
  retain, ltb, leb, ◌==◌, if◌then◌else◌, not,
}

-- `locked_until` is `none` where the source has the zero time.
pub record LockoutState : Type 0 where
  pub failed_attempts : ℕ
  pub locked_until : Option ℕ
  pub last_attempt : ℕ

pub record AccountLockout : Type 0 where
  pub attempts : Dict LockoutState
  pub max_attempts : ℕ
  pub lockout_duration : ℕ

-- A value that is not positive asks for the default.
unfoldable pub new_account_lockout : ℕ → ℕ → AccountLockout
new_account_lockout max_attempts lockout_duration = record {
  attempts = [];
  max_attempts = if max_attempts == 0 then 5 else max_attempts;
  lockout_duration = if lockout_duration == 0 then 60000000000 else lockout_duration;
}

-- What `IsLocked` makes of an entry: the entry behind the call, and the answer.
checked : ℕ → Option ℕ → LockoutState → LockoutState × Bool
checked now none s = (s, false)
checked now (some until) s =
    if ltb now until
    then (s, true)
    else if ltb until now
    then (record s { failed_attempts = 0; locked_until = none }, false)
    else (s, false)

check_entry : ℕ → String → AccountLockout → Option LockoutState → AccountLockout × Bool
unfolding checked
check_entry now id al none = (al, false)
check_entry now id al (some s) =
    let (s', locked) = checked now s.locked_until s in
    (record al { attempts = insert id s' al.attempts }, locked)

unfoldable pub is_locked : ℕ → String → AccountLockout → AccountLockout × Bool
unfolding check_entry
is_locked now id al = check_entry now id al (lookup id al.attempts)

entry_or_new : Option LockoutState → LockoutState
entry_or_new none = record { failed_attempts = 0; locked_until = none; last_attempt = 0 }
entry_or_new (some s) = s

fail_entry : ℕ → ℕ → ℕ → LockoutState → LockoutState
fail_entry max duration now s =
    let s' = record s { failed_attempts = s.failed_attempts + 1; last_attempt = now } in
    if leb max s'.failed_attempts then record s' { locked_until = some (now + duration) } else s'

unfoldable pub record_failure : ℕ → String → AccountLockout → AccountLockout
unfolding entry_or_new fail_entry
record_failure now id al = record al {
  attempts =
      insert id
        (fail_entry al.max_attempts al.lockout_duration now (entry_or_new (lookup id al.attempts)))
        al.attempts;
}

unfoldable pub record_success : String → AccountLockout → AccountLockout
record_success id al = record al { attempts = erase id al.attempts }

remaining_of : ℕ → Option ℕ → ℕ
remaining_of now none = 0
remaining_of now (some until) = until - now

remaining_entry : ℕ → Option LockoutState → ℕ
unfolding remaining_of
remaining_entry now none = 0
remaining_entry now (some s) = remaining_of now s.locked_until

-- A negative rest is 0, as `-` on ℕ has it.
unfoldable pub get_remaining_lockout : ℕ → String → AccountLockout → ℕ
unfolding remaining_entry
get_remaining_lockout now id al = remaining_entry now (lookup id al.attempts)

is_over : ℕ → ℕ → LockoutState → Option ℕ → Bool
is_over now duration s (some until) = ltb (until + duration) now
is_over now duration s none = ltb (s.last_attempt + duration) now

-- One tick of `cleanupLoop`.
unfoldable pub cleanup : ℕ → AccountLockout → AccountLockout
unfolding is_over
cleanup now al = record al {
  attempts = retain (λ id s. not (is_over now al.lockout_duration s s.locked_until)) al.attempts;
}

-- The middleware: the status and the `Retry-After` of a refusal, or the request goes on. A locked
-- account is asked for its remaining time at a second reading of the clock.
unfoldable pub lockout_middleware :
    ℕ → ℕ → String → AccountLockout → AccountLockout × Option (ℕ × ℕ)
unfolding is_locked get_remaining_lockout
lockout_middleware now later id al =
    let (al', locked) = is_locked now id al in
    (al', if locked then some (429, get_remaining_lockout later id al') else none)
