-- ===== src/Gateway/Release.antt =====
-- What a client gets of a reply (internal/proxy/streaming.go: `handleStreaming`,
-- `handleResponsesStream`, `handleStreamingDirect`; internal/proxy/proxy.go: `handleProxyRequest` behind
-- the provider's reply). `analysis` is `analyzeAndVerdict`. Identifiers, times and headers, and the
-- words of summaries and refusals, are left out of what is sent.
pub mod Closed
pub mod Responses
pub mod Dangerous
use pre_code.Common.{
  ℕ, ◌+◌, Bool, true, false, not, ◌&&◌, Option, none, some, List, [], ◌∷◌, ◌++◌, ltb, length,
  if◌then◌else◌,
}
use pre_code.Gateway.{
  Text, EnforcementMode, mode_balanced, PolicyDecision, policy_allow, policy_hold_for_review,
  Verdict, AnalysisOutcome, compute_policy, enforce_policy, Enforcement, release, refuse, is_strict,
  is_passthrough,
}
use pre_code.Gateway.Findings.{Finding}
use pre_code.Gateway.Analysis.{Analyzed}
use pre_code.Gateway.Gate.{StreamingGate, new_streaming_gate, push, finish}

pub record Chunk : Type 0 where
  pub content : Text
  pub finish : Bool

-- An event of the stream: generated text, the verdict, a refusal, the frames around them.
pub data Sent : Type 0 where
  delta : Text → Sent
  summary : AnalysisOutcome → PolicyDecision → Bool → Sent
  refusal : PolicyDecision → Verdict → Sent
  created done : Sent
  completed : Text → Option AnalysisOutcome → Sent

-- `fullContent`, `strictBuf` and what has been sent.
pub record Collected : Type 0 where
  pub full : Text
  pub strict_buf : Text
  pub sent : List Sent

abbrev pub max_stream_content : ℕ
max_stream_content = 10485760

unfoldable pub is_empty : Text → Bool
is_empty [] = true
is_empty (_ ∷ _) = false

-- `if buf.Len() > 0`, a delta.
unfoldable pub delta_of : Text → List Sent
delta_of [] = []
delta_of (x ∷ xs) = delta (x ∷ xs) ∷ []

unfoldable pub taken : Bool → Text → Collected → Collected
taken strict content st =
    if strict
    then record st { full = st.full ++ content; strict_buf = st.strict_buf ++ content }
    else record st { full = st.full ++ content; sent = st.sent ++ delta content ∷ [] }

-- A chunk with content; `none` breaks the loop at the limit.
unfoldable pub absorb : Bool → Text → Collected → Option Collected
unfolding taken is_empty
absorb strict content st =
    if is_empty content
    then some st
    else if ltb max_stream_content (length st.full + length content)
    then none
    else some (taken strict content st)

unfoldable pub collect : Bool → List Chunk → Collected → Collected
unfolding absorb
collect strict [] st = st
collect strict (c ∷ cs) st = elim (absorb strict c.content st) [
  | none ↦ st
  | some st' ↦ elim c.finish [ true ↦ st' | false ↦ collect strict cs st' ]
]

-- The gate's loop of the Responses API.
pub record Gated : Type 0 where
  pub gate : StreamingGate
  pub full : Text
  pub released : Text
  pub sent : List Sent

unfoldable pub let_through : Text → Text × StreamingGate → Gated → Gated
unfolding delta_of
let_through content p st = record st {
  gate = p.1;
  full = st.full ++ content;
  released = st.released ++ p.0;
  sent = st.sent ++ delta_of p.0;
}

unfoldable pub gate_chunk : Text → Gated → Option Gated
unfolding is_empty let_through push
gate_chunk content st =
    if is_empty content
    then some st
    else if ltb max_stream_content (length st.full + length content)
    then none
    else some (let_through content (push content st.gate) st)

unfoldable pub gate_all : List Chunk → Gated → Gated
unfolding gate_chunk
gate_all [] st = st
gate_all (c ∷ cs) st = elim (gate_chunk c.content st) [
  | none ↦ st
  | some st' ↦ elim c.finish [ true ↦ st' | false ↦ gate_all cs st' ]
]

-- The reply to a request that is not streamed, or its refusal with a status.
pub data Reply (F : Type 0) : Type 0 where
  replied : Text → Option AnalysisOutcome → Reply F
  withheld : ℕ → PolicyDecision → AnalysisOutcome → List (Finding F) → Reply F

-- The lines of a provider's stream, with the text that each carries; the loop of
-- `handleStreamingDirect` breaks above the limit.
unfoldable pub forward_lines : List Text → Collected → Collected
forward_lines [] st = st
forward_lines (line ∷ lines) st =
    let full = st.full ++ line in
    elim (ltb max_stream_content (length full)) [
      | true ↦ record st { full = full }
      | false ↦ forward_lines lines (record st { full = full; sent = st.sent ++ delta line ∷ [] })
    ]

module _ {F : Type 0} (analysis : Text → Option (Analyzed F)) where
  -- `if summary != ""`, of the summary of the findings.
  unfoldable pub summary_of : PolicyDecision → Bool → Analyzed F → List Sent
  summary_of policy redacted a =
      if ltb 0 (length a.unique) then summary a.outcome policy redacted ∷ [] else []

  -- The buffer, or the refusal.
  unfoldable pub enforced : Enforcement → PolicyDecision → Verdict → Text → List Sent
  unfolding delta_of
  enforced release policy verdict buf = delta_of buf
  enforced (refuse status) policy verdict buf = refusal policy verdict ∷ []

  unfoldable pub judged_events : EnforcementMode → Collected → Analyzed F → List Sent
  unfolding enforced summary_of enforce_policy compute_policy is_strict
  judged_events mode st a =
      let policy = compute_policy a.outcome mode in
      (if is_strict mode
        then enforced (enforce_policy policy mode) policy a.outcome.verdict st.strict_buf
        else [])
      ++ summary_of policy false a

  -- Behind the loop: with no outcome, strict mode sends the buffer.
  unfoldable pub concluded_events : EnforcementMode → Collected → Option (Analyzed F) → List Sent
  unfolding judged_events delta_of is_strict
  concluded_events mode st none = if is_strict mode then delta_of st.strict_buf else []
  concluded_events mode st (some a) = judged_events mode st a

  -- `handleStreaming` where the router has a stream.
  unfoldable pub handle_stream : EnforcementMode → List Chunk → List Sent
  unfolding collect concluded_events is_passthrough is_strict
  handle_stream mode chunks =
      let st = collect (is_strict mode) chunks (record { full = []; strict_buf = []; sent = [] }) in
      let outcome = if is_passthrough mode then none else analysis st.full in
      st.sent ++ (concluded_events mode st outcome ++ done ∷ [])

  -- The summary behind a stream that was sent as it came.
  unfoldable pub advice_of : EnforcementMode → Option (Analyzed F) → List Sent
  unfolding summary_of compute_policy
  advice_of mode none = []
  advice_of mode (some a) = summary_of (compute_policy a.outcome mode) false a

  unfoldable pub handle_streaming_direct : EnforcementMode → List Text → List Sent
  unfolding forward_lines advice_of is_passthrough
  handle_streaming_direct mode lines =
      let st = forward_lines lines (record { full = []; strict_buf = []; sent = [] }) in
      st.sent
      ++ (advice_of mode (if is_passthrough mode then none else analysis st.full) ++ done ∷ [])

  -- The chunks of the router's stream; without one, the lines of the provider are forwarded.
  unfoldable pub handle_streaming : EnforcementMode → Option (List Chunk) → List Text → List Sent
  unfolding handle_stream handle_streaming_direct
  handle_streaming mode (some chunks) lines = handle_stream mode chunks
  handle_streaming mode none lines = handle_streaming_direct mode lines

  unfoldable pub outcome_of : Option (Analyzed F) → Option AnalysisOutcome
  outcome_of none = none
  outcome_of (some a) = some a.outcome

  unfoldable pub policy_or_allow : EnforcementMode → Option (Analyzed F) → PolicyDecision
  unfolding compute_policy
  policy_or_allow mode none = policy_allow
  policy_or_allow mode (some a) = compute_policy a.outcome mode

  unfoldable pub summary_or_none : PolicyDecision → Bool → Option (Analyzed F) → List Sent
  unfolding summary_of
  summary_or_none policy redacted none = []
  summary_or_none policy redacted (some a) = summary_of policy redacted a

  -- The withheld text, the verdict and the whole reply.
  unfoldable pub completed_events :
      PolicyDecision → Option (Analyzed F) → Text × Bool → Text → List Sent
  unfolding delta_of summary_or_none outcome_of
  completed_events policy a kept released =
      delta_of kept.0
      ++ (summary_or_none policy kept.1 a ++ completed (released ++ kept.0) (outcome_of a) ∷ [])

  unfoldable pub verdict_or_pass : Option (Analyzed F) → Verdict
  verdict_or_pass none = Verdict.pass
  verdict_or_pass (some a) = a.outcome.verdict

  -- Strict mode with a refusal fails; else the reply is completed.
  unfoldable pub responded : Enforcement → PolicyDecision → Option (Analyzed F) → Gated → List Sent
  unfolding completed_events finish verdict_or_pass
  responded release policy a st = completed_events policy a (finish policy st.gate) st.released
  responded (refuse status) policy a st = refusal policy (verdict_or_pass a) ∷ []

  unfoldable pub handle_responses_stream : EnforcementMode → List Chunk → List Sent
  unfolding gate_all responded policy_or_allow new_streaming_gate enforce_policy is_passthrough
  handle_responses_stream mode chunks =
      let st =
        gate_all chunks
          (record { gate = new_streaming_gate mode; full = []; released = []; sent = [] }) in
      let a = if is_passthrough mode then none else analysis st.full in
      let policy = policy_or_allow mode a in
      created ∷ (st.sent ++ (responded (enforce_policy policy mode) policy a st ++ done ∷ []))

  -- `redactCodeBlocks` and the summary are regular expressions and prose: parameters.
  unfoldable pub is_held : PolicyDecision → EnforcementMode → Bool
  is_held policy_hold_for_review mode_balanced = true
  is_held _ _ = false

  unfoldable pub with_summary : (List (Finding F) → Text) → Text → List (Finding F) → Text
  with_summary summarize content [] = content
  with_summary summarize content (f ∷ fs) = content ++ 10 ∷ 10 ∷ summarize (f ∷ fs)

  unfoldable pub enforced_reply :
      (Text → Text) → Enforcement → PolicyDecision → EnforcementMode → Text → Analyzed F → Reply F
  unfolding is_held
  enforced_reply redact release policy mode content a =
      replied (if is_held policy mode then redact content else content) (some a.outcome)
  enforced_reply redact (refuse status) policy mode content a =
      withheld status policy a.outcome a.unique

  unfoldable pub judged_reply :
      (Text → Text)
      → (List (Finding F) → Text)
      → EnforcementMode
      → Text
      → Option (Analyzed F)
      → Reply F
  unfolding enforced_reply with_summary compute_policy enforce_policy
  judged_reply redact summarize mode content none = replied content none
  judged_reply redact summarize mode content (some a) =
      let policy = compute_policy a.outcome mode in
      enforced_reply redact (enforce_policy policy mode) policy mode
        (with_summary summarize content a.unique) a

  unfoldable pub released_reply :
      (Text → Text) → (List (Finding F) → Text) → EnforcementMode → Text → Reply F
  unfolding judged_reply is_passthrough
  released_reply redact summarize mode content =
      judged_reply redact summarize mode content
        (if is_passthrough mode then none else analysis content)
