-- ===== src/Budget/Keys.antt =====
-- The keys under which usage is counted (internal/cost/budget.go): an organisation and a task never
-- share one.
use Prim.Native.String.{◌++◌, ◌∷◌}
use Prim.Native.Char.{Char}
use text.Mathlib.TextLemmas.{cons-append, head-eq_of_cons-eq, append_cancel_left}
use mathlib.Core.Bool.{true≢false}
use pre_code.Common.{◌≡◌, ◌≢◌, ◌∙◌, sym, ap, String, str_eq, false, eq_iff, Bool-cases, inl, inr}

unfoldable pub org_key : String → String
org_key id = "org:" ++ id

unfoldable pub task_key : String → String
task_key id = "task:" ++ id

str_eq_same : (a b c d : String) → (a ≡ b → c ≡ d) → (c ≡ d → a ≡ b) → str_eq a b ≡ str_eq c d
str_eq_same a b c d f g = elim (Bool-cases (str_eq a b)) [
  | inl same ↦ same ∙ sym ((eq_iff c d).1 (f ((eq_iff a b).0 same)))
  | inr other ↦ elim (Bool-cases (str_eq c d)) [
    | inl same' ↦ absurd (true≢false (sym ((eq_iff a b).1 (g ((eq_iff c d).0 same'))) ∙ other))
    | inr other' ↦ other ∙ sym other'
  ]
]

heads_differ : (a b : String) → org_key a ≢ task_key b
unfolding org_key task_key
heads_differ a b e =
    let heads = head-eq_of_cons-eq (sym (cons-append "o" "rg:" a) ∙ e ∙ cons-append "t" "ask:" b) in
    true≢false (ap (λ (c : Char). str_eq (c ∷ "") "o") heads)

pub org_key-task_key : (a b : String) → str_eq (org_key a) (task_key b) ≡ false
org_key-task_key a b = elim (Bool-cases (str_eq (org_key a) (task_key b))) [
  | inr other ↦ other
  | inl same ↦ absurd (heads_differ a b ((eq_iff (org_key a) (task_key b)).0 same))
]

pub org_key-injective : (a b : String) → str_eq (org_key a) (org_key b) ≡ str_eq a b
unfolding org_key
org_key-injective a b =
    str_eq_same (org_key a) (org_key b) a b (append_cancel_left "org:" a b)
      (ap (λ (s : String). "org:" ++ s))

pub task_key-injective : (a b : String) → str_eq (task_key a) (task_key b) ≡ str_eq a b
unfolding task_key
task_key-injective a b =
    str_eq_same (task_key a) (task_key b) a b (append_cancel_left "task:" a b)
      (ap (λ (s : String). "task:" ++ s))
