-- ===== src/Gateway/Release/Responses.antt =====
-- The stream of the Responses API fails closed in strict mode as the chat stream does.
use pre_code.Common.{false, Option, []}
use pre_code.Gateway.{Text, mode_strict, PolicyDecision, enforce_policy}
use pre_code.Gateway.Analysis.{Analyzed}
use pre_code.Gateway.Gate.{StreamingGate}
use pre_code.Gateway.Release.{Gated, responded}
use pre_code.Gateway.Release.Closed.{sent_text}

module _ {F : Type 0} (analysis : Text → Option (Analyzed F)) where
  abbrev held_gate : Text → StreamingGate
  held_gate t = record { mode = mode_strict; in_code = false; buf = t; held_code = [] }

  abbrev holding : Text → Gated
  holding t = record { gate = held_gate t; full = t; released = []; sent = [] }

  -- What follows the loop, of a policy.
  ended : PolicyDecision → Option (Analyzed F) → Text → Text
  ended p o t = sent_text (responded analysis (enforce_policy p mode_strict) p o (holding t))
