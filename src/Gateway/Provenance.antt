-- ===== src/Gateway/Provenance.antt =====
-- Signed records of the gateway's decisions (internal/signing/signing.go: `ProvenanceRecord` and its
-- signature; internal/proxy/proxy.go: the ring of records and its handlers). HMAC, JSON and the format
-- of times are parameters.
pub mod Ring
use pre_code.Common.{
  ℕ, suc, Bool, true, false, not, ◌&&◌, Option, none, some, List, [], ◌∷◌, ◌++◌, String, str_eq,
  ltb, length, if◌then◌else◌, Dict, lookup, insert, erase, is_some,
}

pub record ProvenanceRecord (Time : Type 0) : Type 0 where
  pub scan_id : String
  pub request_id : String
  pub provider : String
  pub model : String
  pub tenant_id : String
  pub user_id : String
  pub project_id : String
  pub client_type : String
  pub client_version : String
  pub policy_version : String
  pub scanner_version : String
  pub provenance_status : String
  pub response_hash : String
  pub decision : String
  pub mode : String
  pub timestamp : Time

-- `HMACSign`, `json.Marshal` of a struct by its fields, and `UTC().Format`.
pub record Signing (Time : Type 0) : Type 0 where
  pub hmac_sign : String → String → String
  pub marshal : List (String × String) → String
  pub format : Time → String

-- The ring: `records` and `sigs` are two maps.
pub record ProvenanceStore (Time : Type 0) : Type 0 where
  pub records : Dict (ProvenanceRecord Time)
  pub sigs : Dict String
  pub order : List String
  pub cap : ℕ

unfoldable pub sig_or_none : Option String → String
sig_or_none none = ""
sig_or_none (some sig) = sig

unfoldable pub is_expected : Option String → String → Bool
is_expected none signature = false
is_expected (some expected) signature = str_eq signature expected

pub data VerifyReply : Type 0 where
  unknown_scan_id not_signed bad_request : VerifyReply
  verified : Bool → VerifyReply

module _ {Time : Type 0} where
  unfoldable pub new_provenance_store : ℕ → ProvenanceStore Time
  new_provenance_store capacity = record { records = []; sigs = []; order = []; cap = capacity }

  -- The maps and the order while the order is too long.
  unfoldable pub evict :
      ℕ → List String → Dict (ProvenanceRecord Time) → Dict String → ProvenanceStore Time
  evict cap [] records sigs = record { records = records; sigs = sigs; order = []; cap = cap }
  evict cap (oldest ∷ order) records sigs = elim (ltb cap (length (oldest ∷ order))) [
    | true ↦ evict cap order (erase oldest records) (erase oldest sigs)
    | false ↦ record { records = records; sigs = sigs; order = oldest ∷ order; cap = cap }
  ]

  -- The signature stands for "" where signing failed.
  unfoldable pub put : ProvenanceRecord Time → String → ProvenanceStore Time → ProvenanceStore Time
  unfolding evict
  put rec sig p =
      evict p.cap
        (if is_some (lookup rec.scan_id p.records) then p.order else p.order ++ rec.scan_id ∷ [])
        (insert rec.scan_id rec p.records) (insert rec.scan_id sig p.sigs)

  unfoldable pub with_sig :
      Option (ProvenanceRecord Time) → Option String → Option (ProvenanceRecord Time × String)
  unfolding sig_or_none
  with_sig none sig = none
  with_sig (some rec) sig = some (rec, sig_or_none sig)

  unfoldable pub get : String → ProvenanceStore Time → Option (ProvenanceRecord Time × String)
  unfolding with_sig
  get scan_id p = with_sig (lookup scan_id p.records) (lookup scan_id p.sigs)

module _ {Time : Type 0} (signing : Signing Time) where
  unfoldable pub canonical_provenance : ProvenanceRecord Time → List (String × String)
  canonical_provenance rec =
      ("scan_id", rec.scan_id)
      ∷ ("request_id", rec.request_id)
      ∷ ("provider", rec.provider)
      ∷ ("model", rec.model)
      ∷ ("tenant_id", rec.tenant_id)
      ∷ ("user_id", rec.user_id)
      ∷ ("project_id", rec.project_id)
      ∷ ("client_type", rec.client_type)
      ∷ ("client_version", rec.client_version)
      ∷ ("policy_version", rec.policy_version)
      ∷ ("scanner_version", rec.scanner_version)
      ∷ ("provenance_status", rec.provenance_status)
      ∷ ("response_hash", rec.response_hash)
      ∷ ("decision", rec.decision)
      ∷ ("mode", rec.mode)
      ∷ ("timestamp", signing.format rec.timestamp)
      ∷ []

  -- `none` is the error of a secret that is not configured.
  unfoldable pub sign_provenance : String → ProvenanceRecord Time → Option String
  unfolding canonical_provenance
  sign_provenance secret rec =
      if str_eq secret ""
      then none
      else some (signing.hmac_sign secret (signing.marshal (canonical_provenance rec)))

  -- Whether there is no error.
  unfoldable pub verify_provenance : String → ProvenanceRecord Time → String → Bool
  unfolding is_expected sign_provenance
  verify_provenance secret rec signature = is_expected (sign_provenance secret rec) signature

  unfoldable pub resolve_provenance_secret : String → String → String
  resolve_provenance_secret provenance_secret api_key =
      if not (str_eq provenance_secret "")
      then provenance_secret
      else if not (str_eq api_key "")
      then api_key
      else "vigilagent-dev-provenance-secret"

  -- Of a record that the handler built, under a new id.
  unfoldable pub record_provenance :
      String → ProvenanceRecord Time → ProvenanceStore Time → String × ProvenanceStore Time
  unfolding put sign_provenance sig_or_none
  record_provenance secret rec p =
      let sig = sig_or_none (sign_provenance secret rec) in (sig, put rec sig p)

  unfoldable pub verify_stored :
      String → Option (ProvenanceRecord Time × String) → String → VerifyReply
  unfolding verify_provenance
  verify_stored secret none signature = unknown_scan_id
  verify_stored secret (some p) signature =
      if str_eq p.1 "" then not_signed else verified (verify_provenance secret p.0 signature)

  -- The record of the body, or else the one that is stored.
  unfoldable pub handle_provenance_verify :
      String → String → Option (ProvenanceRecord Time) → String → ProvenanceStore Time → VerifyReply
  unfolding verify_stored verify_provenance get
  handle_provenance_verify secret scan_id (some rec) signature p =
      verified (verify_provenance secret rec signature)
  handle_provenance_verify secret scan_id none signature p =
      if str_eq scan_id "" then bad_request else verify_stored secret (get scan_id p) signature
