-- ===== src/Gateway/Analysis/Evidence.antt =====
-- What the deterministic engine finds in any block of a text decides the verdict on the text.
use pre_code.Common.{
  ◌≡◌, refl, ◌∙◌, Bool, true, List, [], ◌∷◌, All, arith, String, Bool-cases, inl, inr,
}
use pre_code.Gateway.{block}
use pre_code.Gateway.Findings.{Finding, any, is_serious}
use pre_code.Gateway.Findings.Verdicts.{
  any-append, KeepsWords, IsLower, merge_findings-serious, Tells, compute_verdict-block,
}
use pre_code.Gateway.Analysis.{
  CodeBlock, Engines, LlmReply, failed, parsed, parse_llm_findings, or_fallback, parse_fallback,
  run_llm_engine, analyze, gather, judged,
}

module _ {F : Type 0} (e : Engines F) where
  -- The reply of the LLM writes severities in lower case.
  abbrev pub IsLowerReply : LlmReply F → Type 0
  IsLowerReply (failed err) = Unit
  IsLowerReply (parsed fs) = All (IsLower e.go) fs

  -- What the goroutines of all blocks find, every block and no other.
  abbrev pub Runs : Type 0
  Runs = (p : CodeBlock → Bool) (bs : List CodeBlock) → any p (e.finished_in bs) ≡ any p bs

  parse-IsLower :
      (fs : List (Finding F)) → All (IsLower e.go) fs → All (IsLower e.go) (parse_llm_findings fs)
  unfolding parse_llm_findings
  parse-IsLower [] h = tt
  parse-IsLower (f ∷ fs) h = (h.0, parse-IsLower fs h.1)

  or_fallback-IsLower :
      (fs : List (Finding F))
      → e.go.to_lower "info" ≡ "info"
      → All (IsLower e.go) fs
      → All (IsLower e.go) (or_fallback e fs)
  unfolding or_fallback parse_fallback
  or_fallback-IsLower [] info h = (info, tt)
  or_fallback-IsLower (f ∷ fs) info h = h

  run_llm_engine-IsLower :
      (r : LlmReply F)
      → e.go.to_lower "info" ≡ "info"
      → IsLowerReply r
      → All (IsLower e.go) (run_llm_engine e r).0
  unfolding run_llm_engine
  run_llm_engine-IsLower (failed err) info h = tt
  run_llm_engine-IsLower (parsed fs) info h =
      or_fallback-IsLower (parse_llm_findings fs) info (parse-IsLower fs h)

  -- The deterministic engine finds something critical or high in the block.
  abbrev pub is_dangerous : CodeBlock → Bool
  is_dangerous b = any (is_serious e.go) (e.run_deterministic_engine b)

  gather-serious :
      (bs : List CodeBlock)
      → KeepsWords e.go
      → e.go.to_lower "info" ≡ "info"
      → ((b : CodeBlock) → IsLowerReply (e.ask b))
      → any is_dangerous bs ≡ true
      → any (is_serious e.go) (gather e bs) ≡ true
  unfolding any gather analyze
  gather-serious [] kept info low h = h
  gather-serious (b ∷ bs) kept info low h =
      any-append (is_serious e.go) (analyze e b).findings (gather e bs)
      ∙ elim (Bool-cases (is_dangerous b)) [
        | inl is ↦
            rw
              (merge_findings-serious e.go (e.run_deterministic_engine b)
                (run_llm_engine e (e.ask b)).0 kept (run_llm_engine-IsLower (e.ask b) info (low b))
                is)
              refl
        | inr isnt ↦
            let rest = gather-serious bs kept info low (ground (arith, h, isnt)) in
            ground (arith, rest)
      ]

  pub judged-block :
      (tells : String → Bool) (blocks : List CodeBlock)
      → KeepsWords e.go
      → e.go.to_lower "info" ≡ "info"
      → ((b : CodeBlock) → IsLowerReply (e.ask b))
      → Runs
      → Tells e.go tells (gather e (e.finished_in blocks))
      → any is_dangerous blocks ≡ true
      → (judged e blocks).outcome.verdict ≡ block
  unfolding judged
  judged-block tells blocks kept info low runs told h =
      compute_verdict-block e.go tells (gather e (e.finished_in blocks)) told
        (gather-serious (e.finished_in blocks) kept info low (runs is_dangerous blocks ∙ h))
