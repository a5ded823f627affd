-- ===== src/Gateway/Gate.antt =====
-- The gate of a stream (internal/proxy/streaming.go: `streamingGate`): what may be released live, and
-- what at the end.
pub mod Scans
pub mod Documents
use pre_code.Common.{
  ℕ, suc, ◌-◌, Bool, true, false, ◌&&◌, List, [], ◌∷◌, ◌++◌, ltb, ◌==◌, if◌then◌else◌, map,
}
use pre_code.Gateway.{
  Text, EnforcementMode, mode_observe, mode_balanced, mode_strict, mode_passthrough, mode_other,
  PolicyDecision, policy_allow, policy_allow_with_notice, policy_require_ack,
  policy_hold_for_review, policy_block, policy_scanner_unavailable,
}

-- The field `strict` is `mode == ModeStrict`.
pub record StreamingGate : Type 0 where
  pub mode : EnforcementMode
  pub in_code : Bool
  pub buf : Text
  pub held_code : List Text

unfoldable pub new_streaming_gate : EnforcementMode → StreamingGate
new_streaming_gate mode = record { mode = mode; in_code = false; buf = []; held_code = [] }

-- "```"
abbrev pub fence : Text
fence = 96 ∷ 96 ∷ 96 ∷ []

unfoldable pub is_triple_backtick_at : Text → Bool
is_triple_backtick_at [] = false
is_triple_backtick_at (a ∷ []) = false
is_triple_backtick_at (a ∷ b ∷ []) = false
is_triple_backtick_at (a ∷ b ∷ c ∷ _) = a == 96 && (b == 96 && c == 96)

-- The loop of `push`: the gate, the bytes written to `out`, and the bytes that `i += 2` still
-- jumps over.
pub record Scan : Type 0 where
  pub in_code : Bool
  pub buf : Text
  pub held_code : List Text
  pub out : Text
  pub skip : ℕ

unfoldable pub toggled : Scan → Scan
toggled s =
    if s.in_code
    then record s {
      in_code = false;
      buf = [];
      held_code = s.held_code ++ (s.buf ++ fence) ∷ [];
      skip = 2;
    }
    else record s { in_code = true; buf = s.buf ++ fence; skip = 2 }

unfoldable pub written : ℕ → Scan → Scan
written x s =
    if s.in_code then record s { buf = s.buf ++ x ∷ [] } else record s { out = s.out ++ x ∷ [] }

-- One round, at the byte `x` and those behind it.
unfoldable pub scan_byte : ℕ → Text → Scan → Scan
unfolding toggled written is_triple_backtick_at
scan_byte x xs s =
    if ltb 0 s.skip
    then record s { skip = s.skip - 1 }
    else if is_triple_backtick_at (x ∷ xs)
    then toggled s
    else written x s

unfoldable pub scan : Text → Scan → Scan
unfolding scan_byte
scan [] s = s
scan (x ∷ xs) s = scan xs (scan_byte x xs s)

-- The text to release at once, and the gate.
unfoldable pub push_balanced : Text → StreamingGate → Text × StreamingGate
unfolding scan
push_balanced text g =
    let s : Scan =
      scan text (record {
        in_code = g.in_code;
        buf = g.buf;
        held_code = g.held_code;
        out = [];
        skip = 0;
      }) in
    (s.out, record g { in_code = s.in_code; buf = s.buf; held_code = s.held_code })

unfoldable pub push_in : EnforcementMode → Text → StreamingGate → Text × StreamingGate
unfolding push_balanced
push_in mode_observe text g = (text, g)
push_in mode_passthrough text g = (text, g)
push_in mode_strict text g = ([], record g { buf = g.buf ++ text })
push_in mode_balanced text g = push_balanced text g
push_in (mode_other _) text g = push_balanced text g

unfoldable pub push : Text → StreamingGate → Text × StreamingGate
unfolding push_in
push text g = push_in g.mode text g

-- The line that stands for a block of code.
abbrev pub placeholder : Text
placeholder =
    91 ∷ 240 ∷ 159 ∷ 155 ∷ 161 ∷ 239 ∷ 184 ∷ 143 ∷ 32 ∷ 99 ∷ 111 ∷ 100 ∷ 101 ∷ 32 ∷ 119 ∷ 105 ∷ 116
    ∷ 104 ∷ 104 ∷ 101 ∷ 108 ∷ 100 ∷ 32 ∷ 98 ∷ 121 ∷ 32 ∷ 86 ∷ 105 ∷ 103 ∷ 105 ∷ 108 ∷ 65 ∷ 103 ∷ 101
    ∷ 110 ∷ 116 ∷ 32 ∷ 112 ∷ 111 ∷ 108 ∷ 105 ∷ 99 ∷ 121 ∷ 32 ∷ 226 ∷ 128 ∷ 148 ∷ 32 ∷ 114 ∷ 101
    ∷ 118 ∷ 105 ∷ 101 ∷ 119 ∷ 32 ∷ 116 ∷ 104 ∷ 101 ∷ 32 ∷ 115 ∷ 99 ∷ 97 ∷ 110 ∷ 32 ∷ 102 ∷ 105 ∷ 110
    ∷ 100 ∷ 105 ∷ 110 ∷ 103 ∷ 115 ∷ 32 ∷ 98 ∷ 101 ∷ 102 ∷ 111 ∷ 114 ∷ 101 ∷ 32 ∷ 97 ∷ 112 ∷ 112
    ∷ 108 ∷ 121 ∷ 105 ∷ 110 ∷ 103 ∷ 93 ∷ 10 ∷ []

unfoldable pub placeholders : List Text → Text
placeholders [] = []
placeholders (c ∷ cs) = placeholder ++ placeholders cs

-- `strings.Join(g.heldCode, "\n")`
unfoldable pub join_lines : List Text → Text
join_lines [] = []
join_lines (c ∷ []) = c
join_lines (c ∷ d ∷ cs) = c ++ 10 ∷ join_lines (d ∷ cs)

unfoldable pub withholds : PolicyDecision → Bool
withholds policy_hold_for_review = true
withholds policy_block = true
withholds policy_allow = false
withholds policy_allow_with_notice = false
withholds policy_require_ack = false
withholds policy_scanner_unavailable = false

unfoldable pub finish_strict : PolicyDecision → Text → Text × Bool
finish_strict policy_block buf = ([], true)
finish_strict policy_scanner_unavailable buf = ([], true)
finish_strict policy_allow buf = (buf, false)
finish_strict policy_allow_with_notice buf = (buf, false)
finish_strict policy_require_ack buf = (buf, false)
finish_strict policy_hold_for_review buf = (buf, false)

unfoldable pub finish_balanced : PolicyDecision → List Text → Text × Bool
unfolding placeholders join_lines withholds
finish_balanced policy [] = ([], false)
finish_balanced policy (c ∷ cs) =
    if withholds policy then (placeholders (c ∷ cs), true) else (join_lines (c ∷ cs), false)

unfoldable pub finish_in : EnforcementMode → PolicyDecision → StreamingGate → Text × Bool
unfolding finish_strict finish_balanced
finish_in mode_observe policy g = ([], false)
finish_in mode_passthrough policy g = ([], false)
finish_in mode_strict policy g = finish_strict policy g.buf
finish_in mode_balanced policy g = finish_balanced policy g.held_code
finish_in (mode_other _) policy g = finish_balanced policy g.held_code

-- The withheld text to release, and whether code was redacted.
unfoldable pub finish : PolicyDecision → StreamingGate → Text × Bool
unfolding finish_in
finish policy g = finish_in g.mode policy g
