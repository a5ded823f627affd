-- ===== src/Gateway/Findings/Verdicts.antt =====
-- Serious findings, critical or high, through the merge, the removal of duplicates and the verdict.
use mathlib.Core.Bool.{true≢false}
use pre_code.Common.{
  ◌≤◌, ◌<◌, ◌≡◌, ◌⊎◌, refl, sym, ap, ◌∙◌, Bool, true, false, ◌||◌, Option, none, some, List, [],
  ◌∷◌, ◌++◌, All, arith, Bool-cases, inl, inr, ltb, ltb→lt, count_if, sort_by, sort_by-count,
  String, str_eq, eq_iff, Dict, lookup, insert, lookup-insert, is_some,
}
use pre_code.Gateway.{block}
use pre_code.Gateway.Findings.{
  GoPackages, Finding, any, first_of_category, severity_rank, raised, corroborate,
  merge_deterministic, is_covered, add_llm, add_all_llm, more_severe, merge_findings, key_of,
  deduplicate_from, deduplicate_findings, is_serious, verdict_of, compute_verdict,
}

pub any-count : {A : Type 0} (p : A → Bool) (xs : List A) → any p xs ≡ ltb 0 (count_if p xs)
unfolding any
any-count p [] = refl
any-count p (x ∷ xs) = ground (arith, any-count p xs)

pub any-append :
    {A : Type 0} (p : A → Bool) (xs ys : List A) → any p (xs ++ ys) ≡ (any p xs || any p ys)
unfolding any
any-append p [] ys = refl
any-append p (x ∷ xs) ys = ground (arith, any-append p xs ys)

any-sort_by :
    {A : Type 0} (less : A → A → Bool) (p : A → Bool) (xs : List A)
    → any p (sort_by less xs) ≡ any p xs
any-sort_by less p xs =
    any-count p (sort_by less xs) ∙ ap (ltb 0) (sort_by-count less p xs) ∙ sym (any-count p xs)

abbrev serious : String → Bool
serious s = str_eq s "critical" || str_eq s "high"

serious-cases : (s : String) → serious s ≡ true → (s ≡ "critical") ⊎ (s ≡ "high")
serious-cases s h = elim (Bool-cases (str_eq s "critical")) [
  | inl is ↦ inl ((eq_iff s "critical").0 is)
  | inr isnt ↦ inr ((eq_iff s "high").0 (ground (arith, h, isnt)))
]

-- `strings.ToLower` of the two words.
abbrev pub KeepsWords : {F : Type 0} → GoPackages F → Type 0
KeepsWords go = (go.to_lower "critical" ≡ "critical") × (go.to_lower "high" ≡ "high")

-- The severity is in lower case.
abbrev pub IsLower : {F : Type 0} → GoPackages F → Finding F → Type 0
IsLower go m = go.to_lower m.severity ≡ m.severity

module _ {F : Type 0} (go : GoPackages F) where
  rank-serious : KeepsWords go → (d : String) → serious d ≡ true → 4 ≤ severity_rank go d
  unfolding severity_rank
  rank-serious kept d h = elim (serious-cases d h) [
    | inl e ↦ rw (e, kept.0) (omega arith)
    | inr e ↦ rw (e, kept.1) (omega arith)
  ]

  rank-top : (m : String) → 4 < severity_rank go m → str_eq (go.to_lower m) "critical" ≡ true
  unfolding severity_rank
  rank-top m h = ground (arith, h)

  raised-serious :
      (d m : String)
      → KeepsWords go
      → go.to_lower m ≡ m
      → serious d ≡ true
      → serious (raised go d m) ≡ true
  unfolding raised
  raised-serious d m kept low h =
      elim (Bool-cases (ltb (severity_rank go d) (severity_rank go m))) [
        | inr isnt ↦ rw isnt h
        | inl is ↦ rw is (
            let below = ltb→lt (severity_rank go d) (severity_rank go m) is in
            let least = rank-serious kept d h in
            let top : str_eq m "critical" ≡ true =
              ap (λ s. str_eq s "critical") (sym low) ∙ rank-top m (omega (arith, below, least)) in
            ground (arith, top))
      ]

  abbrev AllLower : Option (Finding F) → Type 0
  AllLower none = Unit
  AllLower (some m) = IsLower go m

  first_of_category-AllLower :
      (c : String) (llm : List (Finding F))
      → All (IsLower go) llm
      → AllLower (first_of_category c llm)
  unfolding first_of_category
  first_of_category-AllLower c [] h = tt
  first_of_category-AllLower c (f ∷ fs) h = elim (Bool-cases (str_eq f.category c)) [
    | inl is ↦ rw is h.0
    | inr isnt ↦ rw isnt (first_of_category-AllLower c fs h.1)
  ]

  corroborate-serious :
      (f : Finding F) (o : Option (Finding F))
      → KeepsWords go
      → AllLower o
      → is_serious go f ≡ true
      → is_serious go (corroborate go f o) ≡ true
  unfolding corroborate is_serious
  corroborate-serious f none kept low h = h
  corroborate-serious f (some m) kept low h = raised-serious f.severity m.severity kept low h

  merge_deterministic-serious :
      (llm det : List (Finding F))
      → KeepsWords go
      → All (IsLower go) llm
      → any (is_serious go) det ≡ true
      → any (is_serious go) (merge_deterministic go llm det) ≡ true
  unfolding any merge_deterministic
  merge_deterministic-serious llm [] kept low h = h
  merge_deterministic-serious llm (f ∷ fs) kept low h =
      let o = first_of_category f.category llm in
      let first = corroborate-serious f o kept (first_of_category-AllLower f.category llm low) in
      elim (Bool-cases (is_serious go f)) [
        | inl is ↦ rw (first is) refl
        | inr isnt ↦
            let later = merge_deterministic-serious llm fs kept low (ground (arith, h, isnt)) in
            ground (arith, later)
      ]

  add_llm-keeps :
      (p : Finding F → Bool) (merged : List (Finding F)) (f : Finding F)
      → any p merged ≡ true
      → any p (add_llm go merged f) ≡ true
  unfolding add_llm
  add_llm-keeps p merged f h = elim (Bool-cases (is_covered go f.category merged)) [
    | inl is ↦ rw is h
    | inr isnt ↦ rw isnt (any-append p merged _ ∙ rw h refl)
  ]

  add_all_llm-keeps :
      (p : Finding F → Bool) (merged llm : List (Finding F))
      → any p merged ≡ true
      → any p (add_all_llm go merged llm) ≡ true
  unfolding add_all_llm
  add_all_llm-keeps p merged [] h = h
  add_all_llm-keeps p merged (f ∷ fs) h =
      add_all_llm-keeps p (add_llm go merged f) fs (add_llm-keeps p merged f h)

  -- Where the severities of the LLM are in lower case, a critical or high finding of the deterministic
  -- engine leaves one among the merged findings.
  pub merge_findings-serious :
      (det llm : List (Finding F))
      → KeepsWords go
      → All (IsLower go) llm
      → any (is_serious go) det ≡ true
      → any (is_serious go) (merge_findings go det llm) ≡ true
  unfolding merge_findings
  merge_findings-serious det llm kept low h =
      any-sort_by (more_severe go) (is_serious go)
        (add_all_llm go (merge_deterministic go llm det) llm)
      ∙ add_all_llm-keeps (is_serious go) (merge_deterministic go llm det) llm
          (merge_deterministic-serious llm det kept low h)

  -- The key of a finding tells whether it is serious.
  abbrev pub Tells : (String → Bool) → List (Finding F) → Type 0
  Tells tells = All (λ (f : Finding F). tells (key_of go f) ≡ is_serious go f)

  -- No serious finding has been seen.
  abbrev NoneSeen : (String → Bool) → Dict Bool → Type 0
  NoneSeen tells seen = (k : String) → tells k ≡ true → lookup k seen ≡ none

  seen-insert :
      (tells : String → Bool) (seen : Dict Bool) (k : String)
      → tells k ≡ false
      → NoneSeen tells seen
      → NoneSeen tells (insert k true seen)
  seen-insert tells seen k h clear j is = elim (Bool-cases (str_eq k j)) [
    | inl same ↦ absurd (true≢false (sym is ∙ ap tells (sym ((eq_iff k j).0 same)) ∙ h))
    | inr other ↦ lookup-insert k j true seen ∙ rw other (clear j is)
  ]

  deduplicate-serious :
      (tells : String → Bool) (seen : Dict Bool) (fs : List (Finding F))
      → NoneSeen tells seen
      → Tells tells fs
      → any (is_serious go) fs ≡ true
      → any (is_serious go) (deduplicate_from go seen fs) ≡ true
  unfolding any deduplicate_from
  deduplicate-serious tells seen [] clear told h = h
  deduplicate-serious tells seen (f ∷ fs) clear told h = elim (Bool-cases (is_serious go f)) [
    | inl is ↦ rw (clear (key_of go f) (told.0 ∙ is)) (rw is refl)
    | inr isnt ↦
        let rest : any (is_serious go) fs ≡ true = ground (arith, h, isnt) in
        elim (Bool-cases (is_some (lookup (key_of go f) seen))) [
          | inl old ↦ rw old (deduplicate-serious tells seen fs clear told.1 rest)
          | inr new ↦
              let later =
                deduplicate-serious tells (insert (key_of go f) true seen) fs
                  (seen-insert tells seen (key_of go f) (told.0 ∙ isnt) clear) told.1 rest in
              rw new (ground (arith, later))
        ]
  ]

  -- A serious finding among them, and the verdict is to block.
  pub compute_verdict-block :
      (tells : String → Bool) (fs : List (Finding F))
      → Tells tells fs
      → any (is_serious go) fs ≡ true
      → (compute_verdict go (deduplicate_findings go fs)).verdict ≡ block
  unfolding compute_verdict verdict_of deduplicate_findings lookup
  compute_verdict-block tells fs told h =
      rw (deduplicate-serious tells [] fs (λ k is. refl) told h) refl
