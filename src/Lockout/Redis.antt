-- ===== src/Lockout/Redis.antt =====
-- The account lockout over Redis (internal/middleware/lockout.go). The commands of the client are a
-- parameter: a state stands for the server, the connection and the clock, and `none` for every error
-- of a command, `redis.Nil` for a missing key included.
use Prim.Native.String.{◌++◌}
use pre_code.Common.{
  ℕ, ◌*◌, ◌≡◌, refl, Bool, true, ◌||◌, Option, none, some, String, leb, ◌==◌, str_eq, if◌then◌else◌,
}

pub record Redis : Type 1 where
  pub State : Type 0
  pub get : String → State → Option String
  pub incr : String → State → State × Option ℕ
  pub expire : String → ℕ → State → State
  pub set : String → String → ℕ → State → State
  pub del : String → State → State
  pub ttl : String → State → Option ℕ

-- `strconv.ParseBool`, with its error as `false`.
abbrev pub parse_bool : String → Bool
parse_bool v =
    str_eq v "1"
    || str_eq v "t"
    || str_eq v "T"
    || str_eq v "TRUE"
    || str_eq v "true"
    || str_eq v "True"

-- The attempt window is set from the duration.
pub record RedisAccountLockout : Type 0 where
  pub max_attempts : ℕ
  pub lockout_duration : ℕ
  pub attempt_window : ℕ

unfoldable pub new_redis_account_lockout : ℕ → ℕ → RedisAccountLockout
new_redis_account_lockout max duration = record {
  max_attempts = max;
  lockout_duration = duration;
  attempt_window = duration * 2;
}

unfoldable pub lockout_key : String → String
lockout_key id = "lockout:" ++ id

unfoldable pub attempt_key : String → String
attempt_key id = "attempts:" ++ id

module _ (redis : Redis) where
  open redis use {State, get, incr, expire, set, del, ttl}

  locked_by : Option String → Bool
  locked_by none = true
  locked_by (some val) = parse_bool val

  unfoldable pub is_locked : String → State → Bool
  unfolding locked_by lockout_key
  is_locked id s = locked_by (get (lockout_key id) s)

  lock_at : RedisAccountLockout → String → ℕ → State → State
  lock_at al id count s =
      if leb al.max_attempts count
      then del (attempt_key id) (set (lockout_key id) "true" al.lockout_duration s)
      else s

  counted : RedisAccountLockout → String → State × Option ℕ → State
  unfolding lock_at
  counted al id (s, none) = s
  counted al id (s, some count) =
      lock_at al id count (if count == 1 then expire (attempt_key id) al.attempt_window s else s)

  unfoldable pub record_failure : RedisAccountLockout → String → State → State
  unfolding counted
  record_failure al id s = counted al id (incr (attempt_key id) s)

  unfoldable pub record_success : String → State → State
  record_success id s = del (lockout_key id) (del (attempt_key id) s)

  remaining : Option ℕ → ℕ
  remaining none = 0
  remaining (some t) = t

  -- A negative TTL is `none` too.
  unfoldable pub get_remaining_lockout : String → State → ℕ
  unfolding remaining
  get_remaining_lockout id s = remaining (ttl (lockout_key id) s)

-- A server that answers: a key is missing behind its `DEL`, and `GET` of a missing key is an error.
pub record Answers (redis : Redis) : Type 1 where
  pub Missing : String → redis.State → Type 0
  pub del-Missing : (k : String) (s : redis.State) → Missing k (redis.del k s)
  pub get-Missing : (k : String) (s : redis.State) → Missing k s → redis.get k s ≡ none

-- With a Redis that answers, `IsLocked` is true of every account that has no lockout key, and so of
-- an account right behind `RecordSuccess`, whatever the attempts before it were.
pub is_locked-record_success :
    (redis : Redis) (a : Answers redis) (id : String) (s : redis.State)
    → (a.Missing (lockout_key id) s → is_locked redis id s ≡ true)
      × (is_locked redis id (record_success redis id s) ≡ true)
unfolding is_locked record_success locked_by
is_locked-record_success redis a id s = (
  λ m. rw (a.get-Missing (lockout_key id) s m) refl,
  rw
      (a.get-Missing (lockout_key id) (record_success redis id s)
        (a.del-Missing (lockout_key id) (redis.del (attempt_key id) s)))
      refl,
)
