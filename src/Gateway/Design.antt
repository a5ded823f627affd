-- ===== src/Gateway/Design.antt =====
-- Before a request reaches a provider (internal/proxy/proxy.go: `applyDesignGate`, `rateLimitMiddleware`;
-- internal/proxy/dualengine.go: `localDeterministicScan`). The regular expressions, the literals of
-- floats and `strings.ToUpper` are parameters.
pub mod Tests
use Prim.Native.String.{◌++◌ as concat}
use pre_code.Common.{
  ℕ, ◌+◌, Bool, true, false, Option, none, some, List, [], ◌∷◌, ◌++◌, String, str_eq, ltb,
  if◌then◌else◌, Dict, lookup, insert,
}
use pre_code.LlmRouter.Tasks.{Message}
use pre_code.Gateway.Findings.{Finding}

pub data Pattern : Type 0 where
  sql_injection_re xss_re secret_re weak_crypto_re cmd_re : Pattern

-- `0.85` is 85 hundredths.
pub record Patterns (F : Type 0) : Type 0 where
  pub matches : Pattern → String → Bool
  pub hundredths : ℕ → F
  pub to_upper : String → String

module _ {F : Type 0} (go : Patterns F) where
  unfoldable pub finding_of : Pattern → Finding F
  finding_of sql_injection_re = record {
    rule_id = "local-sql-injection";
    engine = "deterministic";
    severity = "critical";
    category = "injection";
    message = "Potential SQL injection: string concatenation with user input in SQL query";
    fix = "Use parameterized queries instead of string concatenation";
    confidence = go.hundredths 85;
  }
  finding_of xss_re = record {
    rule_id = "local-xss";
    engine = "deterministic";
    severity = "high";
    category = "xss";
    message = "Potential XSS vulnerability: unescaped user input in HTML output";
    fix = "Use proper escaping or a templating engine that auto-escapes";
    confidence = go.hundredths 80;
  }
  finding_of secret_re = record {
    rule_id = "local-hardcoded-secret";
    engine = "deterministic";
    severity = "critical";
    category = "secrets";
    message = "Potential hardcoded secret detected";
    fix = "Move secrets to environment variables or a secrets manager";
    confidence = go.hundredths 75;
  }
  finding_of weak_crypto_re = record {
    rule_id = "local-weak-crypto";
    engine = "deterministic";
    severity = "medium";
    category = "crypto";
    message = "Weak cryptographic algorithm detected";
    fix = "Use SHA-256+ or AES for modern applications";
    confidence = go.hundredths 70;
  }
  finding_of cmd_re = record {
    rule_id = "local-cmd-injection";
    engine = "deterministic";
    severity = "critical";
    category = "injection";
    message = "Potential command injection: user input in shell command";
    fix = "Use parameterized commands or a safe execution library";
    confidence = go.hundredths 80;
  }

  unfoldable pub findings_for : String → List Pattern → List (Finding F)
  unfolding finding_of
  findings_for code [] = []
  findings_for code (p ∷ ps) =
      let rest = findings_for code ps in if go.matches p code then finding_of p ∷ rest else rest

  unfoldable pub local_deterministic_scan : String → List (Finding F)
  unfolding findings_for
  local_deterministic_scan code =
      findings_for code (sql_injection_re ∷ xss_re ∷ secret_re ∷ weak_crypto_re ∷ cmd_re ∷ [])

  -- "- [%s] %s Required fix: %s\n"
  unfoldable pub constraint_line : Finding F → String
  constraint_line f =
      let fix = if str_eq f.fix "" then "address this requirement" else f.fix in
      concat "- [" (
        concat (go.to_upper f.severity)
          (concat "] " (concat f.message (concat " Required fix: " (concat fix "\n")))))

  unfoldable pub constraint_lines : List (Finding F) → String
  unfolding constraint_line
  constraint_lines [] = ""
  constraint_lines (f ∷ fs) = concat (constraint_line f) (constraint_lines fs)

  abbrev pub preamble : String
  preamble =
      concat
        "SECURE DESIGN CONSTRAINTS — policy-mandated by the design-stage scan of your request. "
        (concat "These requirements are NOT optional suggestions; the policy engine requires them. "
          "Incorporate ALL of the following into your design and output:\n")

  unfoldable pub last_of : List Message → Option Message
  last_of [] = none
  last_of (m ∷ []) = some m
  last_of (m ∷ n ∷ ms) = last_of (n ∷ ms)

  unfoldable pub constrained :
      List Message → List (Finding F) → List Message × List (Finding F) × Bool
  unfolding constraint_lines
  constrained ms [] = (ms, [], false)
  constrained ms (f ∷ fs) = (
    ms ++ (record { role = "system"; content = concat preamble (constraint_lines (f ∷ fs)) } ∷ []),
    f ∷ fs,
    true,
  )

  unfoldable pub gated_by : List Message → Option Message → List Message × List (Finding F) × Bool
  unfolding constrained local_deterministic_scan
  gated_by ms none = (ms, [], false)
  gated_by ms (some m) =
      if str_eq m.role "user"
      then constrained ms (local_deterministic_scan m.content)
      else (ms, [], false)

  -- The messages of the task after it, with what the source returns.
  unfoldable pub apply_design_gate : List Message → List Message × List (Finding F) × Bool
  unfolding gated_by last_of
  apply_design_gate ms = gated_by ms (last_of ms)

-- The window of an address.
pub record ClientState : Type 0 where
  pub count : ℕ
  pub reset_time : ℕ

abbrev pub minute : ℕ
minute = 60000000000

unfoldable pub window_of : ℕ → Option ClientState → ClientState
window_of now none = record { count = 0; reset_time = now + minute }
window_of now (some s) =
    if ltb s.reset_time now then record { count = 0; reset_time = now + minute } else s

unfoldable pub counted : ClientState → ClientState
counted s = record s { count = s.count + 1 }

-- Whether the request of an address goes on.
unfoldable pub rate_limit : ℕ → String → Dict ClientState → Bool × Dict ClientState
unfolding window_of counted
rate_limit now ip clients =
    let s = counted (window_of now (lookup ip clients)) in
    (if ltb 100 s.count then false else true, insert ip s clients)
