-- ===== src/Gateway/Release/Dangerous.antt =====
-- The streams of strict mode over the engines: no code block with a critical or high finding leaves.
use pre_code.Common.{◌≡◌, Bool, [], String}
use pre_code.Gateway.{Text}
use pre_code.Gateway.Findings.Verdicts.{KeepsWords, Tells}
use pre_code.Gateway.Analysis.{CodeBlock, Engines, gather}
use pre_code.Gateway.Analysis.Evidence.{IsLowerReply, Runs}

-- `strings.ToLower` of the words in use, no match in the empty text, all goroutines run, severities
-- of the LLM in lower case, and keys that tell whether a finding is serious.
pub record IsOrderly {F : Type 0} (e : Engines F) (tells : String → Bool) : Type 0 where
  pub keeps_words : KeepsWords e.go
  pub keeps_info : e.go.to_lower "info" ≡ "info"
  pub empty_text : e.extract_code_blocks [] ≡ []
  pub lower : (b : CodeBlock) → IsLowerReply e (e.ask b)
  pub runs : Runs e
  pub told : (t : Text) → Tells e.go tells (gather e (e.finished_in (e.extract_code_blocks t)))
