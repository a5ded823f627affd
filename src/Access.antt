-- ===== src/Access.antt =====
-- Who is let in (internal/middleware/blacklist.go, internal/middleware/cache.go, internal/middleware/scopes.go,
-- and the handlers that revoke tokens in internal/router/router.go). Redis keeps values until they expire;
-- a call of it fails where `up` is false. Of the Authorization header, the model has the token behind the
-- scheme Bearer, in any case of letters.
pub mod Revocation
mod Examples
use Prim.Native.String.{◌++◌, len, slice}
use text.Mathlib.Text.{find?}
use pre_code.Common.{
  ℕ, ◌+◌, ◌-◌, Bool, true, false, not, ◌&&◌, ◌||◌, Option, none, some, List, [], ◌∷◌, String,
  str_eq, ltb, if◌then◌else◌, Dict, lookup, insert, is_some,
}

-- A value, and when it expires.
pub record Entry : Type 0 where
  pub value : String
  pub expires : Option ℕ

abbrev pub Redis : Type 0
Redis = Dict Entry

pub data Answer : Type 0 where
  nil failed : Answer
  found : String → Answer

unfoldable pub is_live : ℕ → Option ℕ → Bool
is_live now none = true
is_live now (some at) = ltb now at

unfoldable pub answer_of : ℕ → Option Entry → Answer
unfolding is_live
answer_of now none = nil
answer_of now (some e) = if is_live now e.expires then found e.value else nil

unfoldable pub redis_get : Bool → ℕ → String → Redis → Answer
unfolding answer_of
redis_get up now key r = if up then answer_of now (lookup key r) else failed

-- `none` is an expiration of 0: the value stays. Where Redis fails, nothing is stored.
unfoldable pub redis_set : Bool → String → String → Option ℕ → Redis → Redis
redis_set up key value expires r =
    if up then insert key (record { value = value; expires = expires }) r else r

unfoldable pub token_key : String → String
token_key token = "jwt:blacklist:" ++ token

unfoldable pub user_key : String → String
user_key user_id = "jwt:blacklist:user:" ++ user_id

unfoldable pub revoke : Bool → ℕ → String → ℕ → Redis → Redis
unfolding redis_set token_key
revoke up now token ttl r = redis_set up (token_key token) "1" (some (now + ttl)) r

unfoldable pub revoked_by : Answer → Bool
revoked_by nil = false
revoked_by failed = true
revoked_by (found val) = str_eq val "1"

unfoldable pub is_revoked : Bool → ℕ → String → Redis → Bool
unfolding revoked_by redis_get token_key
is_revoked up now token r = revoked_by (redis_get up now (token_key token) r)

-- `time.Now().Unix()`, written by `text`.
unfoldable pub revoke_all_for_user : (ℕ → String) → Bool → ℕ → String → Redis → Redis
unfolding redis_set user_key
revoke_all_for_user text up now user_id r = redis_set up (user_key user_id) (text now) none r

unfoldable pub user_revoked_by : Answer → Bool
user_revoked_by nil = false
user_revoked_by failed = true
user_revoked_by (found _) = true

unfoldable pub is_user_revoked : Bool → ℕ → String → Redis → Bool
unfolding user_revoked_by redis_get user_key
is_user_revoked up now user_id r = user_revoked_by (redis_get up now (user_key user_id) r)

-- An API key has an underscore and no dot.
unfoldable pub looks_like_api_key : String → Bool
looks_like_api_key token = not (is_some (find? token ".")) && is_some (find? token "_")

-- "" where there is no JWT.
unfoldable pub extract_bearer_token : Option String → String
unfolding looks_like_api_key
extract_bearer_token none = ""
extract_bearer_token (some token) = if looks_like_api_key token then "" else token

pub record Claims : Type 0 where
  pub user_id : String
  pub scopes : List String
  pub is_api_key : Bool

-- A request at a time, with Redis up or down, and the claims that its context has so far.
pub record Request : Type 0 where
  pub bearer : Option String
  pub at : ℕ
  pub up : Bool

-- A middleware lets a request through or answers with a status.
pub data Passage : Type 0 where
  passed : Passage
  answered_with : ℕ → Passage

unfoldable pub blacklist_middleware : Request → Redis → Passage
unfolding extract_bearer_token is_revoked
blacklist_middleware req r =
    let token = extract_bearer_token req.bearer in
    if str_eq token ""
    then passed
    else if is_revoked req.up req.at token r
    then answered_with 401
    else passed

unfoldable pub middleware_with_user_revocation : Request → Option Claims → Redis → Passage
unfolding is_user_revoked
middleware_with_user_revocation req none r = passed
middleware_with_user_revocation req (some claims) r =
    if is_user_revoked req.up req.at claims.user_id r then answered_with 401 else passed

unfoldable pub behind : Passage → Passage → Passage
behind passed next = next
behind (answered_with status) next = answered_with status

-- What the response cache reads of a request: its key is the path and the query.
pub record Page : Type 0 where
  pub method : String
  pub key : String
  pub no_cache : Bool
  pub if_none_match : String

-- An entry of the response cache.
pub record CacheEntry : Type 0 where
  pub etag : String
  pub status : ℕ

unfoldable pub cached_answer : Page → CacheEntry → Passage
cached_answer page entry =
    if not (str_eq page.if_none_match "")
      && (str_eq page.if_none_match entry.etag || str_eq page.if_none_match "*")
    then answered_with 304
    else answered_with entry.status

unfoldable pub from_cache : Page → Option CacheEntry → Passage
unfolding cached_answer
from_cache page none = passed
from_cache page (some entry) = cached_answer page entry

-- `ResponseCacheMiddleware` before it calls the next handler; `cached` is `cache.Get`.
unfoldable pub response_cache_middleware : (String → Option CacheEntry) → Page → Passage
unfolding from_cache
response_cache_middleware cached page =
    if not (str_eq page.method "GET")
    then passed
    else if page.no_cache
    then passed
    else from_cache page (cached page.key)

-- `setupMiddleware`, of the middleware that may answer: the response cache, CORS and the heartbeat,
-- which are another library's, and the blacklist. All stand before the routes, whose own middleware is
-- what fills in the claims.
unfoldable pub global_middleware :
    (String → Option CacheEntry) → (Page → Passage) → Page → Request → Redis → Passage
unfolding behind blacklist_middleware middleware_with_user_revocation response_cache_middleware
global_middleware cached cors_and_heartbeat page req r =
    behind (response_cache_middleware cached page) (
      behind (cors_and_heartbeat page)
        (behind (blacklist_middleware req r) (middleware_with_user_revocation req none r)))

-- `logoutHandler`, behind its check of the claims; the token is revoked for 24 hours.
unfoldable pub logout_handler : Request → Redis → Redis
unfolding extract_bearer_token revoke
logout_handler req r =
    let token = extract_bearer_token req.bearer in
    if str_eq token "" then r else revoke req.up req.at token 86400 r

-- The text before the first colon.
unfoldable pub name_to : String → Option ℕ → String
name_to s none = s
name_to s (some at) = slice s 0 at

unfoldable pub scope_name : String → String
unfolding name_to
scope_name s = name_to s (find? s ":")

unfoldable pub has_suffix : String → String → Bool
has_suffix s suffix =
    not (ltb (len s) (len suffix)) && str_eq (slice s (len s - len suffix) (len s)) suffix

-- One scope, trimmed.
unfoldable pub scope_grants : String → String → Bool
unfolding has_suffix scope_name
scope_grants required s =
    str_eq s required
    || (has_suffix s ":*" && str_eq (scope_name s) (scope_name required))
    || str_eq s "*"

unfoldable pub has_scope : List String → String → Bool
unfolding scope_grants
has_scope [] required = false
has_scope (s ∷ scopes) required =
    let rest = has_scope scopes required in if scope_grants required s then true else rest

unfoldable pub require_scope : String → Option Claims → Passage
unfolding has_scope
require_scope scope none = answered_with 401
require_scope scope (some claims) =
    if not claims.is_api_key
    then passed
    else if has_scope claims.scopes scope
    then passed
    else answered_with 403
