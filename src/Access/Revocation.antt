-- ===== src/Access/Revocation.antt =====
-- A token that was logged out is refused as long as it is revoked, whoever else logs out or changes a
-- password.
use pre_code.Common.{
  ℕ, ◌+◌, ◌≤◌, ◌≡◌, Bool, false, some, List, [], ◌∷◌, String, str_eq, lookup, if◌then◌else◌,
}
use pre_code.Access.{
  Redis, token_key, user_key, revoke, revoke_all_for_user, Request, logout_handler,
}

-- A logout by a request, or a password change of a user.
pub data Event : Type 0 where
  logs_out : Request → Event
  changes_password : Bool → ℕ → String → Event

unfoldable pub step : (ℕ → String) → Event → Redis → Redis
step text (logs_out req) r = logout_handler req r
step text (changes_password up now user_id) r = revoke_all_for_user text up now user_id r

-- The latest first.
unfoldable pub run : (ℕ → String) → List Event → Redis → Redis
unfolding step
run text [] r = r
run text (e ∷ es) r = step text e (run text es r)

module _ (text : ℕ → String) (token : String) (start : ℕ) where
  -- The event is no earlier, and does not write the user key that is the token's.
  abbrev pub Later : Event → Type 0
  Later (logs_out req) = start ≤ req.at
  Later (changes_password up now user_id) = str_eq (user_key user_id) (token_key token) ≡ false

  Revoked : Redis → Type 0
  Revoked r =
      (e : ℕ) × (lookup (token_key token) r ≡ some (record { value = "1"; expires = some e }))
      × (start + 86400 ≤ e)

  -- The logout of a token, at a time.
  abbrev logged_out : Redis → String → Bool → ℕ → Redis
  logged_out r t up at = if str_eq t "" then r else revoke up at t 86400 r
