-- ===== src/Gateway/Design/Tests.antt =====
-- The design gate and the rate limit by address (internal/proxy/proxy.go) at concrete requests.
use pre_code.Common.{
  lookup, ℕ, ◌≡◌, refl, Bool, true, false, List, [], ◌∷◌, String, str_eq, Dict, map,
}
use pre_code.LlmRouter.Tasks.{Message}
use pre_code.Gateway.Findings.{Finding}
use pre_code.Gateway.Design.{
  Pattern, cmd_re, xss_re, Patterns, apply_design_gate, ClientState, rate_limit,
}

-- One text has two patterns, whatever their expressions.
abbrev matches_risky : Pattern → String → Bool
matches_risky xss_re t = str_eq t "risky"
matches_risky cmd_re t = str_eq t "risky"
matches_risky p t = false

abbrev plain_patterns : Patterns ℕ
plain_patterns = record { matches = matches_risky; hundredths = λ n. n; to_upper = λ s. s }

abbrev said : String → String → List Message
said role text = record { role = role; content = text } ∷ []

rules : List (Finding ℕ) → List String
rules fs = map (λ f. f.rule_id) fs

apply_design_gate_order :
    rules (apply_design_gate plain_patterns (said "user" "risky")).1
    ≡ "local-xss" ∷ "local-cmd-injection" ∷ []
unfolding apply_design_gate rules
apply_design_gate_order = refl

-- A last message of the assistant is not scanned.
apply_design_gate_assistant :
    apply_design_gate plain_patterns (said "assistant" "risky")
    ≡ (said "assistant" "risky", [], false)
unfolding apply_design_gate
apply_design_gate_assistant = refl

abbrev full : Dict ClientState
full = ("a", record { count = 100; reset_time = 60 }) ∷ []

-- The 101st request of a window is refused, at its very end too; after it a new window begins.
rate_limit_full : (rate_limit 60 "a" full).0 ≡ false
unfolding rate_limit lookup
rate_limit_full = refl

rate_limit_later : (rate_limit 61 "a" full).0 ≡ true
unfolding rate_limit lookup
rate_limit_later = refl

rate_limit_other : (rate_limit 60 "b" full).0 ≡ true
unfolding rate_limit lookup
rate_limit_other = refl
