-- ===== src/Gateway/Examples.antt =====
-- The gateway at concrete texts, findings and requests, and its theorems there.
use pre_code.Common.{
  lookup, insert, sort_by, ℕ, ◌+◌, ◌-◌, ◌≤◌, ◌*◌, ◌/◌, ◌≡◌, refl, Bool, true, false, none, some,
  List, [], ◌∷◌, String, str_eq, ltb, if◌then◌else◌, arith,
}
use pre_code.Gateway.{
  Text, mode_balanced, mode_strict, mode_observe, mode_of, mode_other, policy_hold_for_review,
  policy_allow, policy_require_ack, pass, enforce_policy, release,
}
use pre_code.Gateway.Findings.{
  GoPackages, Finding, merge_findings, calculate_score, compute_verdict,
}
use pre_code.Gateway.Analysis.{CodeBlock, Engines, failed, analyze_and_verdict}
use pre_code.Gateway.Gate.{withholds, push, new_streaming_gate, finish, placeholder, placeholders}
use pre_code.Gateway.Gate.Scans.{ends_in_backtick}
use pre_code.Gateway.Gate.Documents.{
  has_code, render, Segment, prose, code, pushes, pushes-render, prose_of, code_of,
}
use pre_code.Gateway.Release.{Chunk, handle_streaming, handle_streaming_direct}
use pre_code.Gateway.Release.Closed.{sent_text}
use Prim.Native.String.{◌++◌ as concat}
use pre_code.Gateway.Provenance.{
  ProvenanceRecord, Signing, new_provenance_store, record_provenance, handle_provenance_verify,
  verified,
}
use pre_code.Gateway.Provenance.Ring.{listed, puts, recorded-verified}
use pre_code.Gateway.Server.{
  Config, ProxyRequest, World, handle_proxy_request, usage_count, authenticate,
  resolve_allowed_keys, model_allowed, is_over_quota,
}
use pre_code.Gateway.Server.Quota.{serve_all, serve_all-quota}

-- Numbers in tenths.
abbrev in_tenths : GoPackages ℕ
in_tenths = record {
  literal = λ n. n * 10;
  tenths = λ n. n;
  add = λ x y. x + y;
  sub = λ x y. x - y;
  mul = λ x y. x * y / 10;
  lt = ltb;
  int_of = λ x. x / 10;
  to_lower = λ s. if str_eq s "CRITICAL" then "critical" else s;
}

abbrev found : String → String → ℕ → Finding ℕ
found severity message confidence = record {
  rule_id = "r";
  engine = "deterministic";
  severity = severity;
  category = "injection";
  message = message;
  fix = "";
  confidence = confidence;
}

-- The backend's findings come without a confidence: nothing is deducted for them.
no_confidence : calculate_score in_tenths (found "critical" "m" 0 ∷ []) ≡ (100, "A")
unfolding calculate_score
no_confidence = refl

-- A high finding, seen as "CRITICAL" by the LLM, passes.
capital_pass :
    (compute_verdict in_tenths
      (merge_findings in_tenths (found "high" "m" 0 ∷ []) (found "CRITICAL" "n" 9 ∷ []))).verdict
    ≡ pass
unfolding compute_verdict merge_findings sort_by
capital_pass = refl

-- Of two findings of the LLM alone in a category, the second is dropped, more severe or not.
second_dropped :
    (compute_verdict in_tenths
      (merge_findings in_tenths [] (found "low" "m" 5 ∷ found "critical" "n" 9 ∷ []))).verdict
    ≡ pass
unfolding compute_verdict merge_findings sort_by
second_dropped = refl

-- "a```b```c", in one chunk and in two.
abbrev document : List Segment
document = prose (97 ∷ []) ∷ code (98 ∷ []) ∷ prose (99 ∷ []) ∷ []

abbrev two_chunks : List Text
two_chunks = (97 ∷ 96 ∷ 96 ∷ 96 ∷ 98 ∷ []) ∷ (96 ∷ 96 ∷ 96 ∷ 99 ∷ []) ∷ []

pushes-render_example :
    (let p = pushes two_chunks (new_streaming_gate mode_balanced) in
      (p.0 ≡ 97 ∷ 99 ∷ []) × (finish policy_hold_for_review p.1 ≡ (placeholder, true)))
unfolding render ends_in_backtick prose_of withholds has_code placeholders code_of
pushes-render_example =
    pushes-render document two_chunks policy_hold_for_review
      ((refl, tt), ((refl, tt), ((refl, tt), tt))) refl (refl, (refl, tt))

-- A fence cut by the chunks is not seen, and the code goes out live.
cut_fence :
    (pushes ((97 ∷ 96 ∷ []) ∷ (96 ∷ 96 ∷ 98 ∷ []) ∷ []) (new_streaming_gate mode_balanced)).0
    ≡ 97 ∷ 96 ∷ 96 ∷ 96 ∷ 98 ∷ []
unfolding pushes push new_streaming_gate
cut_fence = refl

-- Code behind a fence that is not closed is lost, even where it is allowed.
lost_code :
    finish policy_allow
      (pushes ((96 ∷ 96 ∷ 96 ∷ 98 ∷ []) ∷ []) (new_streaming_gate mode_balanced)).1
    ≡ ([], false)
unfolding finish pushes push new_streaming_gate
lost_code = refl

-- A text that is not empty is one block, with one high finding; the LLM is down.
abbrev blocks_of : Text → List CodeBlock
blocks_of [] = []
blocks_of (x ∷ xs) = record { language = "go"; code = x ∷ xs } ∷ []

abbrev alarm : Engines ℕ
alarm = record {
  go = in_tenths;
  extract_code_blocks = blocks_of;
  run_deterministic_engine = λ b. found "high" "m" 8 ∷ [];
  ask = λ b. failed "down";
  finished_in = λ bs. bs;
  half = 5;
}

abbrev one_chunk : List Chunk
one_chunk = record { content = 97 ∷ 98 ∷ []; finish = true } ∷ []

-- The strict stream sends nothing of the text.
strict_sends_nothing :
    sent_text (handle_streaming (analyze_and_verdict alarm) mode_strict (some one_chunk) []) ≡ []
unfolding sent_text handle_streaming analyze_and_verdict merge_findings sort_by lookup
strict_sends_nothing = refl

-- In balanced mode the chat stream sends code as it comes.
balanced_sends_all :
    sent_text (handle_streaming (analyze_and_verdict alarm) mode_balanced (some one_chunk) [])
    ≡ 97 ∷ 98 ∷ []
unfolding sent_text handle_streaming analyze_and_verdict merge_findings sort_by lookup
balanced_sends_all = refl

-- The way out of the chat stream sends all of it even in strict mode.
direct_sends_all :
    sent_text
      (handle_streaming_direct (analyze_and_verdict alarm) mode_strict ((97 ∷ 98 ∷ []) ∷ []))
    ≡ 97 ∷ 98 ∷ []
unfolding sent_text handle_streaming_direct analyze_and_verdict merge_findings sort_by lookup
direct_sends_all = refl

-- A verdict to warn is released in strict mode without any acknowledgement.
warn_released : enforce_policy policy_require_ack mode_strict ≡ release
unfolding enforce_policy
warn_released = refl

unknown_mode : mode_of "scan" ≡ mode_other "scan"
unfolding mode_of
unknown_mode = refl

abbrev world : World ℕ
world = record {
  analysis = analyze_and_verdict alarm;
  redact = λ t. t;
  summarize = λ fs. 33 ∷ [];
  execute = λ r. some (record { content = []; cost = 2; tokens = 3 });
  stream_chunks = λ r. some one_chunk;
  direct_lines = λ r. [];
}

abbrev limited : Config
limited = record {
  allowed_api_keys = some ("k" ∷ "" ∷ []);
  api_key = "";
  allowed_models = some ("gpt-4o*" ∷ []);
  per_key_daily_quota = 1;
}

abbrev asks : Bool → ProxyRequest
asks stream = record {
  body_size = some 100;
  base = some (record { model = "gpt-4o-mini"; stream = stream });
  llm_model = "";
  api_key = "k";
  mode = mode_observe;
  has_messages = true;
  at = 7;
}

serve_all-quota_example :
    (serve_all world limited "k" refl (asks false ∷ asks false ∷ asks false ∷ []) []).0 ≤ 1
serve_all-quota_example =
    serve_all-quota world limited "k" refl (asks false ∷ asks false ∷ asks false ∷ []) (omega arith)

one_answered :
    (serve_all world limited "k" refl (asks false ∷ asks false ∷ asks false ∷ []) []).0 ≡ 1
unfolding serve_all handle_proxy_request usage_count lookup insert is_over_quota model_allowed
one_answered = refl

-- A stream is not counted.
stream_uncounted :
    usage_count "k" (serve_all world limited "k" refl (asks true ∷ asks true ∷ []) []).1 ≡ 0
unfolding serve_all handle_proxy_request usage_count lookup insert is_over_quota model_allowed
stream_uncounted = refl

models_tried :
    (model_allowed limited "gpt-4o-mini" ≡ true) × (model_allowed limited "claude" ≡ false)
unfolding model_allowed
models_tried = (refl, refl)

-- The header wins over the bearer token; an empty configuration lets nobody in.
keys_tried :
    (authenticate (resolve_allowed_keys limited) "/v1/models" "" "Bearer k" ≡ some "k")
    × (authenticate (resolve_allowed_keys limited) "/v1/models" "x" "Bearer k" ≡ none)
    × (authenticate [] "/v1/models" "k" "" ≡ none)
unfolding authenticate resolve_allowed_keys
keys_tried = (refl, refl, refl)

abbrev decided : String → String → ProvenanceRecord ℕ
decided id decision = record {
  scan_id = id;
  request_id = "q";
  provider = "openai";
  model = "gpt-4o";
  tenant_id = "";
  user_id = "";
  project_id = "";
  client_type = "";
  client_version = "";
  policy_version = "";
  scanner_version = "";
  provenance_status = "verified";
  response_hash = "h";
  decision = decision;
  mode = "strict";
  timestamp = 7;
}

-- The signature is the secret and the values.
abbrev values_of : List (String × String) → String
values_of [] = ""
values_of (f ∷ fs) = concat f.1 (values_of fs)

abbrev plain_signing : Signing ℕ
plain_signing = record {
  hmac_sign = λ secret data_. concat secret data_;
  marshal = values_of;
  format = λ t. "t";
}

recorded-verified_example :
    (let made =
        record_provenance plain_signing "s" (decided "a" "block") (new_provenance_store 3) in
      handle_provenance_verify plain_signing "s" "a" none "forged"
        (puts ((decided "c" "allow", "x") ∷ (decided "b" "allow", "x") ∷ []) made.1)
      ≡ verified (str_eq "forged" made.0))
unfolding record_provenance new_provenance_store lookup listed
recorded-verified_example =
    recorded-verified plain_signing "s" (decided "a" "block") (new_provenance_store 3)
      ((decided "c" "allow", "x") ∷ (decided "b" "allow", "x") ∷ []) "forged" refl refl refl refl
      refl (omega arith) (refl, (refl, tt))
