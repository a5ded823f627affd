-- ===== src/Gateway.antt =====
-- The gateway in front of the LLM providers (internal/proxy/proxy.go): verdicts, modes and the
-- policy that decides what is released. Its parts are the modules below.
pub mod Findings
pub mod Analysis
pub mod Gate
pub mod Release
pub mod Server
pub mod Design
pub mod Provenance
mod Examples
use pre_code.Common.{ℕ, Bool, true, false, ◌&&◌, String, str_eq, if◌then◌else◌, List}

-- A Go string of generated text, as its bytes.
abbrev pub Text : Type 0
Text = List ℕ

-- The header `X-VigilAgent-Mode`: any other text is a mode of its own.
pub data EnforcementMode : Type 0 where
  mode_observe mode_balanced mode_strict mode_passthrough : EnforcementMode
  mode_other : String → EnforcementMode

-- The mode of a request, observe where the header is missing.
unfoldable pub mode_of : String → EnforcementMode
mode_of header =
    if str_eq header ""
    then mode_observe
    else if str_eq header "observe"
    then mode_observe
    else if str_eq header "balanced"
    then mode_balanced
    else if str_eq header "strict"
    then mode_strict
    else if str_eq header "passthrough"
    then mode_passthrough
    else mode_other header

pub data Verdict : Type 0 where
  pass warn block : Verdict

pub data PolicyDecision : Type 0 where
  policy_allow policy_allow_with_notice policy_require_ack : PolicyDecision
  policy_hold_for_review policy_block policy_scanner_unavailable : PolicyDecision

pub record AnalysisOutcome : Type 0 where
  pub verdict : Verdict
  pub grade : String
  pub score : ℕ
  pub findings_count : ℕ
  pub corroborated : ℕ
  pub scanners_unavailable : Bool

unfoldable pub is_strict : EnforcementMode → Bool
is_strict mode_strict = true
is_strict mode_observe = false
is_strict mode_balanced = false
is_strict mode_passthrough = false
is_strict (mode_other _) = false

unfoldable pub is_passthrough : EnforcementMode → Bool
is_passthrough mode_passthrough = true
is_passthrough mode_observe = false
is_passthrough mode_balanced = false
is_passthrough mode_strict = false
is_passthrough (mode_other _) = false

-- The `switch o.Verdict`.
unfoldable pub policy_of : Verdict → Bool → PolicyDecision
policy_of block strict = if strict then policy_block else policy_hold_for_review
policy_of warn strict = if strict then policy_require_ack else policy_allow_with_notice
policy_of pass _ = policy_allow

unfoldable pub compute_policy : AnalysisOutcome → EnforcementMode → PolicyDecision
unfolding policy_of is_strict is_passthrough
compute_policy o mode =
    if is_passthrough mode
    then policy_allow
    else if o.scanners_unavailable && is_strict mode
    then policy_scanner_unavailable
    else policy_of o.verdict (is_strict mode)

-- Whether to release, or the status of the refusal; the reason is fixed by the status.
pub data Enforcement : Type 0 where
  release : Enforcement
  refuse : ℕ → Enforcement

unfoldable pub enforce_policy : PolicyDecision → EnforcementMode → Enforcement
unfolding is_strict
enforce_policy policy_block mode = if is_strict mode then refuse 451 else release
enforce_policy policy_scanner_unavailable mode = if is_strict mode then refuse 503 else release
enforce_policy policy_allow _ = release
enforce_policy policy_allow_with_notice _ = release
enforce_policy policy_require_ack _ = release
enforce_policy policy_hold_for_review _ = release
