-- ===== src/Access/Examples.antt =====
-- Tokens, scopes and revocations at concrete requests.
use pre_code.Common.{
  if◌then◌else◌, str_eq, Option, none, insert, lookup, ℕ, ◌≡◌, refl, Bool, true, false, some, List,
  [], ◌∷◌, String,
}
use pre_code.Access.{
  Page, CacheEntry, Claims, Request, passed, answered_with, global_middleware, revoke_all_for_user,
  middleware_with_user_revocation, has_scope, require_scope,
}
use pre_code.Access.Revocation.{Event, logs_out, changes_password, run}

abbrev asks_with : String → ℕ → Bool → Request
asks_with token at up = record { bearer = some token; at = at; up = up }

abbrev meanwhile : List Event
meanwhile = changes_password true 30 "ann" ∷ logs_out (asks_with "x.y.z" 20 true) ∷ []

abbrev post : Page
post = record { method = "POST"; key = "/scans"; no_cache = false; if_none_match = "" }

abbrev one_page : String → Option CacheEntry
one_page key = if str_eq key "/scans" then some (record { etag = "e"; status = 200 }) else none

-- What a user got from a path, anyone gets from the cache, with no token at all.
cached_for_all :
    global_middleware one_page
      (λ page. passed)
      (record post { method = "GET" })
      (record { bearer = none; at = 0; up = true })
      []
    ≡ answered_with 200
unfolding global_middleware
cached_for_all = refl

-- After a password change a token of the user passes the global middleware as before: the claims are
-- not in the context yet.
password_change_passes :
    global_middleware one_page
      (λ page. passed)
      post
      (asks_with "a.b.c" 40 true)
      (run (λ n. "t") (changes_password true 30 "ann" ∷ []) [])
    ≡ passed
unfolding global_middleware lookup run revoke_all_for_user insert
password_change_passes = refl

abbrev ann : Claims
ann = record { user_id = "ann"; scopes = "a:b:*" ∷ []; is_api_key = true }

-- With the claims, it would be refused for ever, new tokens too: the key never expires.
refused_for_ever :
    middleware_with_user_revocation
      (asks_with "new.b.c" 999999999 true)
      (some ann)
      (run (λ n. "t") (changes_password true 30 "ann" ∷ []) [])
    ≡ answered_with 401
unfolding middleware_with_user_revocation lookup run revoke_all_for_user insert
refused_for_ever = refl

-- The scope "a:b:*" grants all of "a".
nested_scope : has_scope ("a:b:*" ∷ []) "a:write" ≡ true
unfolding has_scope
nested_scope = refl

scopes_tried :
    (require_scope "ab:read" (some (record ann { scopes = "a:*" ∷ [] })) ≡ answered_with 403)
    × (require_scope "a:read" (some (record ann { scopes = "a:*" ∷ [] })) ≡ passed)
unfolding require_scope
scopes_tried = (refl, refl)
