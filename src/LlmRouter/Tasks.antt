-- ===== src/LlmRouter/Tasks.antt =====
-- What the router is asked (internal/llm/provider.go: `Task`, `classifyComplexity`,
-- `estimateInputTokens`, `systemPrompt`). Tool calls are left out of a message.
use Prim.Native.String.{len, ◌++◌}
use pre_code.Common.{
  ℕ, ◌+◌, ◌/◌, Bool, true, false, ◌||◌, List, [], ◌∷◌, String, str_eq, ltb, leb, if◌then◌else◌,
  length,
}
use pre_code.LlmRouter.Pricing.{contains}
use pre_code.LlmRouter.Float
use pre_code.LlmRouter.Float.{float_add}

pub record Message : Type 0 where
  pub role : String
  pub content : String

pub record Task : Type 0 where
  pub id : String
  pub org_id : String
  pub type : String
  pub description : String
  pub files_changed : List String
  pub requires_reasoning : Bool
  pub is_novel : Bool
  pub tags : List String
  pub messages : List Message
  pub required_capabilities : List String
  pub target_model : String

-- `switch task.Type`
type_score : String → ℕ
type_score type =
    if contains type ("formatting" ∷ "rename" ∷ "documentation" ∷ [])
    then Float.p10
    else if contains type ("bug_fix" ∷ "small_feature" ∷ [])
    then Float.p30
    else if contains type ("refactoring" ∷ "feature" ∷ [])
    then Float.p50
    else if contains type ("architecture" ∷ "security" ∷ [])
    then Float.p70
    else 0

-- What the number of files adds.
files_score : ℕ → ℕ → ℕ
files_score count score =
    if ltb 10 count
    then float_add score Float.p30
    else if ltb 5 count
    then float_add score Float.p20
    else if ltb 1 count
    then float_add score Float.p10
    else score

-- `for _, tag := range task.Tags { if tag == "security" || tag == "production" { …; break } }`
is_sensitive : List String → Bool
is_sensitive [] = false
is_sensitive (tag ∷ tags) =
    let rest = is_sensitive tags in
    if str_eq tag "security" || str_eq tag "production" then true else rest

added_if : Bool → ℕ → ℕ → ℕ
added_if b x score = if b then float_add score x else score

unfoldable pub classify_complexity : Task → ℕ
unfolding type_score files_score is_sensitive added_if
classify_complexity task =
    let score = files_score (length task.files_changed) (float_add 0 (type_score task.type)) in
    let score' =
      added_if (is_sensitive task.tags) Float.p30
        (added_if task.is_novel Float.p15 (added_if task.requires_reasoning Float.p20 score)) in
    if ltb Float.p100 score' then Float.p100 else score'

sum_content : List Message → ℕ
sum_content [] = 0
sum_content (m ∷ ms) = len m.content + sum_content ms

unfoldable pub estimate_input_tokens : Task → ℕ
unfolding sum_content
estimate_input_tokens task =
    let tokens = sum_content task.messages / 4 in if ltb tokens 50 then 50 else tokens

-- `switch` of `getModelsForComplexity`.
unfoldable pub get_models_for_complexity : ℕ → List String
get_models_for_complexity c =
    if leb c Float.p30
    then "gpt-4o-mini" ∷ "claude-haiku-3.5" ∷ "gemini-2.0-flash" ∷ []
    else if leb c Float.p60
    then "claude-sonnet-4-20250514" ∷ "gpt-4o" ∷ "gemini-2.5-pro" ∷ []
    else if leb c Float.p85
    then "claude-opus-4" ∷ "gpt-4.5" ∷ "deepseek-r1" ∷ []
    else "claude-opus-4" ∷ "gpt-4.5" ∷ []

-- `strings.Join`
join : String → List String → String
join sep [] = ""
join sep (s ∷ []) = s
join sep (s ∷ t ∷ ss) = s ++ (sep ++ join sep (t ∷ ss))

focus : String → String
focus type =
    if str_eq type "bug_fix"
    then "Focus on identifying and fixing the bug with minimal changes. "
    else if str_eq type "feature"
    then "Implement the requested feature following existing code patterns. "
    else if str_eq type "refactoring"
    then "Refactor the code for clarity and maintainability without changing behavior. "
    else if str_eq type "security"
    then "Analyze and fix security vulnerabilities. Follow security best practices. "
    else if str_eq type "architecture"
    then "Design and implement architectural changes. Consider scalability and maintainability. "
    else "Complete the requested task accurately and efficiently. "

listed : String → List String → String
unfolding join
listed label xs = if ltb 0 (length xs) then label ++ (join ", " xs ++ ". ") else ""

unfoldable pub system_prompt : Task → String
unfolding focus listed
system_prompt task =
    "You are VigilAgent, an AI coding assistant. "
    ++ (focus task.type
        ++ (listed "Files involved: " task.files_changed ++ listed "Context tags: " task.tags))
