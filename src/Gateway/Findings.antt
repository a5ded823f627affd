-- ===== src/Gateway/Findings.antt =====
-- The findings of the two engines, merged, and the verdict on them (internal/proxy/dualengine.go,
-- and `ComputeVerdict` of internal/proxy/proxy.go). The line and the snippet of a finding, which
-- only the reply shows, are left out.
pub mod Verdicts
use Prim.Native.String.{◌++◌ as concat}
use text.Mathlib.Text.{find?, starts_with}
use pre_code.Common.{
  ℕ, ◌+◌, Bool, true, false, not, ◌&&◌, ◌||◌, Option, none, some, List, [], ◌∷◌, ◌++◌, String,
  str_eq, ltb, ◌==◌, if◌then◌else◌, is_some, map, length, count_if, sort_by, Dict, lookup, insert,
}
use pre_code.Gateway.{AnalysisOutcome, Verdict, pass, warn, block}

-- What the source uses of float64, and `strings.ToLower`: whole literals, tenths (0.2, 0.7), the
-- arithmetic, `<`, and `int(x)` of a number that is not negative.
pub record GoPackages (F : Type 0) : Type 0 where
  pub literal : ℕ → F
  pub tenths : ℕ → F
  pub add : F → F → F
  pub sub : F → F → F
  pub mul : F → F → F
  pub lt : F → F → Bool
  pub int_of : F → ℕ
  pub to_lower : String → String

pub record Finding (F : Type 0) : Type 0 where
  pub rule_id : String
  pub engine : String
  pub severity : String
  pub category : String
  pub message : String
  pub fix : String
  pub confidence : F

-- `strings.Contains(f.RuleID, "+llm")`.
unfoldable pub is_corroborated : {F : Type 0} → Finding F → Bool
is_corroborated f = is_some (find? f.rule_id "+llm")

-- `ruleID`, with the prefix of the LLM's findings.
unfoldable pub llm_rule_id : String → String
llm_rule_id id = if starts_with id "llm-" then id else concat "llm-" id

unfoldable pub any : {A : Type 0} → (A → Bool) → List A → Bool
any p [] = false
any p (x ∷ xs) = p x || any p xs

-- `llmByCategory[c]`, its first.
unfoldable pub first_of_category : {F : Type 0} → String → List (Finding F) → Option (Finding F)
first_of_category c [] = none
first_of_category c (f ∷ fs) =
    let rest = first_of_category c fs in if str_eq f.category c then some f else rest

module _ {F : Type 0} (go : GoPackages F) where
  unfoldable pub severity_rank : String → ℕ
  severity_rank sev =
      let s = go.to_lower sev in
      if str_eq s "critical"
      then 5
      else if str_eq s "high"
      then 4
      else if str_eq s "medium"
      then 3
      else if str_eq s "low"
      then 2
      else if str_eq s "info"
      then 1
      else 0

  unfoldable pub clamp_float : F → F → F → F
  clamp_float val low high = if go.lt val low then low else if go.lt high val then high else val

  -- The severity of the more severe finding.
  unfoldable pub raised : String → String → String
  unfolding severity_rank
  raised det llm = if ltb (severity_rank det) (severity_rank llm) then llm else det

  -- The body of the first loop of `MergeFindings`.
  unfoldable pub corroborate : Finding F → Option (Finding F) → Finding F
  unfolding raised clamp_float
  corroborate f none = f
  corroborate f (some m) = record f {
    confidence = clamp_float (go.add f.confidence (go.tenths 2)) (go.literal 0) (go.literal 1);
    rule_id = concat f.rule_id "+llm";
    severity = raised f.severity m.severity;
  }

  unfoldable pub merge_deterministic : List (Finding F) → List (Finding F) → List (Finding F)
  unfolding corroborate first_of_category
  merge_deterministic llm [] = []
  merge_deterministic llm (f ∷ fs) =
      corroborate f (first_of_category f.category llm) ∷ merge_deterministic llm fs

  -- `m.Category == f.Category && !strings.Contains(m.RuleID, "+llm")`, of some merged finding.
  unfoldable pub is_covered : String → List (Finding F) → Bool
  unfolding any is_corroborated
  is_covered c = any (λ m. str_eq m.category c && not (is_corroborated m))

  -- One round of the second loop.
  unfoldable pub add_llm : List (Finding F) → Finding F → List (Finding F)
  unfolding is_covered clamp_float
  add_llm merged f =
      if is_covered f.category merged
      then merged
      else merged
        ++ (record f { confidence = clamp_float f.confidence (go.literal 0) (go.tenths 7) } ∷ [])

  unfoldable pub add_all_llm : List (Finding F) → List (Finding F) → List (Finding F)
  unfolding add_llm
  add_all_llm merged [] = merged
  add_all_llm merged (f ∷ fs) = add_all_llm (add_llm merged f) fs

  -- The order of `sort.SliceStable`.
  unfoldable pub more_severe : Finding F → Finding F → Bool
  unfolding severity_rank
  more_severe f g =
      if severity_rank f.severity == severity_rank g.severity
      then go.lt g.confidence f.confidence
      else ltb (severity_rank g.severity) (severity_rank f.severity)

  unfoldable pub merge_findings : List (Finding F) → List (Finding F) → List (Finding F)
  unfolding merge_deterministic add_all_llm more_severe
  merge_findings det llm = sort_by more_severe (add_all_llm (merge_deterministic llm det) llm)

  -- The key `"%s:%s:%s"`.
  unfoldable pub key_of : Finding F → String
  key_of f = concat f.category (concat ":" (concat f.severity (concat ":" f.message)))

  unfoldable pub deduplicate_from : Dict Bool → List (Finding F) → List (Finding F)
  unfolding key_of
  deduplicate_from seen [] = []
  deduplicate_from seen (f ∷ fs) =
      let old = deduplicate_from seen fs in
      let new = deduplicate_from (insert (key_of f) true seen) fs in
      if is_some (lookup (key_of f) seen) then old else f ∷ new

  unfoldable pub deduplicate_findings : List (Finding F) → List (Finding F)
  unfolding deduplicate_from
  deduplicate_findings = deduplicate_from []

  -- The points of a severity; any other costs none.
  unfoldable pub deducted : F → Finding F → F
  deducted score f =
      if str_eq f.severity "critical"
      then go.sub score (go.mul (go.literal 25) f.confidence)
      else if str_eq f.severity "high"
      then go.sub score (go.mul (go.literal 15) f.confidence)
      else if str_eq f.severity "medium"
      then go.sub score (go.mul (go.literal 8) f.confidence)
      else if str_eq f.severity "low"
      then go.sub score (go.mul (go.literal 3) f.confidence)
      else if str_eq f.severity "info"
      then go.sub score (go.mul (go.literal 1) f.confidence)
      else score

  unfoldable pub deduct_all : F → List (Finding F) → F
  unfolding deducted
  deduct_all score [] = score
  deduct_all score (f ∷ fs) = deduct_all (deducted score f) fs

  -- `score >= n` is written `!(score < n)`: no score is a NaN.
  unfoldable pub score_to_grade : F → String
  score_to_grade score =
      if not (go.lt score (go.literal 90))
      then "A"
      else if not (go.lt score (go.literal 80))
      then "B"
      else if not (go.lt score (go.literal 70))
      then "C"
      else if not (go.lt score (go.literal 60))
      then "D"
      else "F"

  unfoldable pub at_least_zero : F → F
  at_least_zero score = if go.lt score (go.literal 0) then go.literal 0 else score

  unfoldable pub with_bonus : ℕ → F → F
  with_bonus corroborated score =
      if ltb 0 corroborated
      then go.add score (go.mul (go.literal corroborated) (go.literal 2))
      else score

  unfoldable pub at_most_hundred : F → F
  at_most_hundred score = if go.lt (go.literal 100) score then go.literal 100 else score

  unfoldable pub float_score : List (Finding F) → F
  unfolding deduct_all at_least_zero with_bonus at_most_hundred is_corroborated
  float_score fs =
      at_most_hundred
        (with_bonus (count_if is_corroborated fs) (at_least_zero (deduct_all (go.literal 100) fs)))

  unfoldable pub calculate_score : List (Finding F) → ℕ × String
  unfolding float_score score_to_grade
  calculate_score [] = (100, "A")
  calculate_score (f ∷ fs) =
      (go.int_of (float_score (f ∷ fs)), score_to_grade (float_score (f ∷ fs)))

  unfoldable pub is_serious : Finding F → Bool
  is_serious f = str_eq f.severity "critical" || str_eq f.severity "high"

  unfoldable pub is_medium : Finding F → Bool
  is_medium f = str_eq f.severity "medium"

  unfoldable pub verdict_of : Bool → Bool → Verdict
  verdict_of has_critical_or_high should_warn =
      if has_critical_or_high then block else if should_warn then warn else pass

  unfoldable pub compute_verdict : List (Finding F) → AnalysisOutcome
  unfolding calculate_score any is_serious is_medium verdict_of is_corroborated
  compute_verdict fs = record {
    verdict = verdict_of (any is_serious fs) (any is_medium fs || ltb (calculate_score fs).0 70);
    grade = (calculate_score fs).1;
    score = (calculate_score fs).0;
    findings_count = length fs;
    corroborated = count_if is_corroborated fs;
    scanners_unavailable = false;
  }
