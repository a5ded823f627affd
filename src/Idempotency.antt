-- ===== src/Idempotency.antt =====
-- Requests that carry an idempotency key run once (internal/idempotency/idempotency.go). The mutex
-- makes each critical section one step: a request that runs is `arrive` and, after its handler,
-- `finish`, with the steps of other requests in between. Times and durations are nanoseconds; a
-- body is its list of bytes.
mod Capture
pub mod Waiting
pub mod Capacity
pub mod Body
mod Examples
pub use Capture.{ResponseWriter}
unfoldable pub use Capture.{response_writer, max_body_size, write_header, write}
use pre_code.Common.{
  ℕ, ◌+◌, ◌-◌, Bool, true, false, Option, none, some, List, [], ◌∷◌, String, Dict, lookup, insert,
  erase, retain, length, ltb, leb, ◌||◌, str_eq, if◌then◌else◌,
}

pub record Config : Type 0 where
  pub max_age : ℕ
  pub max_entries : ℕ

pub record CachedResponse : Type 0 where
  pub status_code : ℕ
  pub body : List ℕ
  pub headers : List (String × String)
  pub created_at : ℕ
  pub processing : Bool

pub record Store : Type 0 where
  pub entries : Dict CachedResponse
  pub config : Config

unfoldable pub new_store : Config → Store
new_store cfg = record { entries = []; config = cfg }

-- `time.Since(entry.createdAt) <= s.config.MaxAge`
unfoldable pub fresh : ℕ → Store → CachedResponse → Bool
fresh now s e = leb (now - e.created_at) s.config.max_age

fresh_entry : ℕ → Store → Option CachedResponse → Option CachedResponse
unfolding fresh
fresh_entry now s none = none
fresh_entry now s (some e) = if fresh now s e then some e else none

unfoldable pub get : ℕ → String → Store → Option CachedResponse
unfolding fresh_entry
get now key s = fresh_entry now s (lookup key s.entries)

-- The loop of `evictOldest`, with its two variables.
unfoldable pub oldest : Dict CachedResponse → String → ℕ → String × ℕ
oldest [] key time = (key, time)
oldest ((k, e) ∷ d) key time =
    let takes = str_eq key "" || ltb e.created_at time in
    let key' = if takes then k else key in
    let time' = if takes then e.created_at else time in oldest d key' time'

unfoldable pub evict_oldest : Store → Store
unfolding oldest
evict_oldest s =
    let key = (oldest s.entries "" 0).0 in
    if str_eq key "" then s else record s { entries = erase key s.entries }

unfoldable pub make_room : Store → Store
unfolding evict_oldest
make_room s = if leb s.config.max_entries (length s.entries) then evict_oldest s else s

unfoldable pub put : String → CachedResponse → Store → Store
put key e s = record s { entries = insert key e s.entries }

unfoldable pub set : ℕ → String → ℕ → List ℕ → List (String × String) → Store → Store
unfolding make_room put
set now key status body headers s =
    put key
      (record {
        status_code = status;
        body = body;
        headers = headers;
        created_at = now;
        processing = false;
      })
      (make_room s)

unfoldable pub delete : String → Store → Store
delete key s = record s { entries = erase key s.entries }

unfoldable pub cleanup : ℕ → Store → Store × ℕ
unfolding fresh
cleanup now s =
    let left = retain (λ k e. fresh now s e) s.entries in
    (record s { entries = left }, length s.entries - length left)

unfoldable pub size : Store → ℕ
size s = length s.entries

-- What the first critical section of `Middleware` decides for a request.
pub data Decision : Type 0 where
  passes : Decision
  waits : Decision
  replays : CachedResponse → Decision
  runs : Decision

abbrev pub reservation : ℕ → CachedResponse
reservation now = record {
  status_code = 0;
  body = [];
  headers = [];
  created_at = now;
  processing = true;
}

unfoldable pub reserve : ℕ → String → Store → Store
unfolding make_room put
reserve now key s = put key (reservation now) (make_room s)

arrive_at : ℕ → String → Store → Option CachedResponse → Store × Decision
unfolding reserve
arrive_at now key s (some e) = (s, if e.processing then waits else replays e)
arrive_at now key s none = (reserve now key s, runs)

-- The first critical section. A request with no key goes to the handler and leaves no trace.
unfoldable pub arrive : ℕ → String → Store → Store × Decision
unfolding arrive_at fresh_entry
arrive now key s =
    if str_eq key ""
    then (s, passes)
    else arrive_at now key s (fresh_entry now s (lookup key s.entries))

-- The second critical section, after the handler.
unfoldable pub finish : ℕ → String → ResponseWriter → List (String × String) → Store → Store
unfolding put
finish now key rw headers s =
    put key
      (record {
        status_code = rw.status_code;
        body = rw.body;
        headers = headers;
        created_at = now;
        processing = false;
      })
      s

completed : Option CachedResponse → Option CachedResponse
completed none = none
completed (some e) = if e.processing then none else some e

or_else : Option CachedResponse → Option CachedResponse → Option CachedResponse
or_else none rest = rest
or_else (some e) rest = some e

-- `waitForCompletion`: the store as each tick of 10 ms finds it, up to the timeout of 30 s, after
-- which the request is answered with nothing.
unfoldable pub wait_for_completion : String → List (ℕ × Store) → Option CachedResponse
unfolding completed or_else get
wait_for_completion key [] = none
wait_for_completion key ((now, s) ∷ ticks) =
    let later = wait_for_completion key ticks in or_else (completed (get now key s)) later
