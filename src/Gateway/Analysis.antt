-- ===== src/Gateway/Analysis.antt =====
-- The analysis of a reply (internal/proxy/proxy.go: `analyzeAndVerdict`; internal/proxy/dualengine.go:
-- `Analyze`). The regular expressions of `ExtractCodeBlocks`, the backend's scanner with its
-- local substitute, and the call of the LLM are parameters; so is the order in which the
-- goroutines of the blocks end.
pub mod Evidence
use pre_code.Common.{
  ℕ, Bool, true, false, ◌&&◌, Option, none, some, List, [], ◌∷◌, ◌++◌, String, str_eq, leb, ◌==◌,
  not, if◌then◌else◌, length, count_if,
}
use pre_code.Gateway.{Text, AnalysisOutcome}
use pre_code.Gateway.Findings.{
  GoPackages, Finding, merge_findings, deduplicate_findings, compute_verdict, llm_rule_id,
}

pub record CodeBlock : Type 0 where
  pub language : String
  pub code : Text

-- What the engines report of a block: `llm_error` is "" where the LLM answered.
pub record DualEngineResult (F : Type 0) : Type 0 where
  pub findings : List (Finding F)
  pub llm_error : String

-- `runLLMEngine`: the text of the error of the call, or the findings that its reply parses to, each
-- as the JSON has it.
pub data LlmReply (F : Type 0) : Type 0 where
  failed : String → LlmReply F
  parsed : List (Finding F) → LlmReply F

pub record Engines (F : Type 0) : Type 0 where
  pub go : GoPackages F
  pub extract_code_blocks : Text → List CodeBlock
  pub run_deterministic_engine : CodeBlock → List (Finding F)
  pub ask : CodeBlock → LlmReply F
  pub finished_in : List CodeBlock → List CodeBlock
  -- The finding that says that nothing could be parsed has a confidence of 0.5.
  pub half : F

-- The findings of the scan, and whether the LLM failed.
pub record Analyzed (F : Type 0) : Type 0 where
  pub outcome : AnalysisOutcome
  pub unique : List (Finding F)
  pub llm_degraded : Bool

-- `ParseLLMFindings`, of the findings of the JSON.
unfoldable pub parse_llm_findings : {F : Type 0} → List (Finding F) → List (Finding F)
unfolding llm_rule_id
parse_llm_findings [] = []
parse_llm_findings (f ∷ fs) =
    record f { rule_id = llm_rule_id f.rule_id; engine = "llm" } ∷ parse_llm_findings fs

module _ {F : Type 0} (e : Engines F) where
  unfoldable pub parse_fallback : Finding F
  parse_fallback = record {
    rule_id = "llm-parse-fallback";
    engine = "llm";
    severity = "info";
    category = "analysis";
    message = "LLM analysis completed but findings could not be parsed as structured JSON";
    fix = "";
    confidence = e.half;
  }

  unfoldable pub or_fallback : List (Finding F) → List (Finding F)
  unfolding parse_fallback
  or_fallback [] = parse_fallback ∷ []
  or_fallback (f ∷ fs) = f ∷ fs

  unfoldable pub run_llm_engine : LlmReply F → List (Finding F) × String
  unfolding or_fallback parse_llm_findings
  run_llm_engine (failed err) = ([], err)
  run_llm_engine (parsed fs) = (or_fallback (parse_llm_findings fs), "")

  unfoldable pub analyze : CodeBlock → DualEngineResult F
  unfolding run_llm_engine
  analyze b =
      let llm = run_llm_engine (e.ask b) in
      record {
        findings = merge_findings e.go (e.run_deterministic_engine b) llm.0;
        llm_error = llm.1;
      }

  -- The goroutines append their findings as they end.
  unfoldable pub gather : List CodeBlock → List (Finding F)
  unfolding analyze
  gather [] = []
  gather (b ∷ bs) = (analyze b).findings ++ gather bs

  unfoldable pub has_llm_error : CodeBlock → Bool
  unfolding analyze
  has_llm_error b = not (str_eq (analyze b).llm_error "")

  unfoldable pub judged : List CodeBlock → Analyzed F
  unfolding gather has_llm_error deduplicate_findings compute_verdict
  judged blocks =
      let unique = deduplicate_findings e.go (gather (e.finished_in blocks)) in
      let errors = count_if has_llm_error (e.finished_in blocks) in
      record {
        outcome = record (compute_verdict e.go unique) {
          scanners_unavailable = leb (length blocks) errors && (length unique == 0);
        };
        unique = unique;
        llm_degraded = not (errors == 0);
      }

  unfoldable pub judged_or_none : List CodeBlock → Option (Analyzed F)
  unfolding judged
  judged_or_none [] = none
  judged_or_none (b ∷ bs) = some (judged (b ∷ bs))

  unfoldable pub analyze_and_verdict : Text → Option (Analyzed F)
  unfolding judged_or_none
  analyze_and_verdict content = judged_or_none (e.extract_code_blocks content)
