-- ===== src/Common/Dicts.antt =====
-- Go's `map[string]V` as an association list. Iteration visits the entries in the list's order;
-- a theorem about every list is a theorem about every order of iteration.
use Prim.Native.Nat.{suc, ◌≤◌}
use Prim.Native.String.{String}
use mathlib.Core.Path.{◌≡◌, refl, sym, ◌∙◌}
use mathlib.Core.Logic.{◌⊎◌, inl, inr}
use mathlib.Core.Bool.{Bool, false}
use mathlib.Core.Option.{Option, none, some, some-injective}
use mathlib.Core.List.{List, [], ◌∷◌}
use native.Mathlib.Omega.{arith}
use text.Mathlib.Text.{◌==◌ as str_eq}
use text.Mathlib.TextEquality.{eq_iff}
use pre_code.Common.Tests.{if◌then◌else◌, Bool-cases}
use pre_code.Common.Lists.{length}

abbrev pub Dict {ℓ} : Type ℓ → Type ℓ
Dict V = List (String × V)

module _ {ℓ} {V : Type ℓ} where
  -- `v, ok := m[k]`
  unfoldable pub lookup : String → Dict V → Option V
  lookup k [] = none
  lookup k ((j, v) ∷ d) = if str_eq j k then some v else lookup k d

  -- `m[k] = v`
  unfoldable pub insert : String → V → Dict V → Dict V
  insert k v [] = (k, v) ∷ []
  insert k v ((j, w) ∷ d) = if str_eq j k then (k, v) ∷ d else (j, w) ∷ insert k v d

  -- `delete(m, k)`
  unfoldable pub erase : String → Dict V → Dict V
  erase k [] = []
  erase k ((j, v) ∷ d) = let rest = erase k d in if str_eq j k then rest else (j, v) ∷ rest

  -- `for k, v := range m { if !p(k, v) { delete(m, k) } }`
  unfoldable pub retain : (String → V → Bool) → Dict V → Dict V
  retain p [] = []
  retain p ((j, v) ∷ d) = let rest = retain p d in if p j v then (j, v) ∷ rest else rest

  -- No key has two entries.
  abbrev pub IsDict : Dict V → Type ℓ
  IsDict [] = Unit
  IsDict ((k, v) ∷ d) = (lookup k d ≡ none) × IsDict d

  pub lookup-insert :
      (k j : String) (v : V) (d : Dict V)
      → lookup j (insert k v d) ≡ (if str_eq k j then some v else lookup j d)
  unfolding lookup insert
  lookup-insert k j v [] = refl
  lookup-insert k j v ((i, w) ∷ d) =
      ground (arith, eq_iff k j, eq_iff i k, eq_iff i j, lookup-insert k j v d)

  -- What is found after a write is the value that was written, or was found before.
  pub insert-cases :
      (k j : String) (v w : V) (d : Dict V)
      → lookup j (insert k v d) ≡ some w
      → (v ≡ w) ⊎ ((str_eq k j ≡ false) × (lookup j d ≡ some w))
  insert-cases k j v w d h = elim (Bool-cases (str_eq k j)) [
    | inl is ↦ inl (some-injective _ _ (sym (lookup-insert k j v d ∙ rw is refl) ∙ h))
    | inr other ↦ inr (other, sym (lookup-insert k j v d ∙ rw other refl) ∙ h)
  ]

  pub lookup-erase :
      (k j : String) (d : Dict V) → lookup j (erase k d) ≡ (if str_eq k j then none else lookup j d)
  unfolding lookup erase
  lookup-erase k j [] = ground arith
  lookup-erase k j ((i, w) ∷ d) =
      ground (arith, eq_iff k j, eq_iff i k, eq_iff i j, lookup-erase k j d)

  -- What is found after a deletion has another key, and was found before.
  pub erase-cases :
      (k j : String) (w : V) (d : Dict V)
      → lookup j (erase k d) ≡ some w
      → (str_eq k j ≡ false) × (lookup j d ≡ some w)
  erase-cases k j w d h = elim (Bool-cases (str_eq k j)) [
    | inl is ↦
        (let gone : lookup j (erase k d) ≡ none = lookup-erase k j d ∙ rw is refl in
          absurd (ground (arith, sym gone ∙ h)))
    | inr other ↦
        (let same : lookup j (erase k d) ≡ lookup j d = lookup-erase k j d ∙ rw other refl in
          (other, sym same ∙ h))
  ]

  pub erase_missing : (k : String) (d : Dict V) → lookup k d ≡ none → erase k d ≡ d
  unfolding lookup erase
  erase_missing k [] h = refl
  erase_missing k ((i, w) ∷ d) h = ground (arith, erase_missing k d)

  pub size-insert :
      (k : String) (v : V) (d : Dict V)
      → length (insert k v d) ≡ elim (lookup k d) [ none ↦ suc (length d) | some _ ↦ length d ]
  unfolding lookup insert
  size-insert k v [] = refl
  size-insert k v ((i, w) ∷ d) = ground (arith, size-insert k v d)

  pub size-erase :
      (k : String) (d : Dict V)
      → IsDict d
      → elim (lookup k d) [ none ↦ length d | some _ ↦ suc (length (erase k d)) ] ≡ length d
  unfolding lookup erase
  size-erase k [] h = refl
  size-erase k ((i, w) ∷ d) h = ground (arith, eq_iff i k, size-erase k d h.1, erase_missing k d)

  pub size-erase-le : (k : String) (d : Dict V) → length (erase k d) ≤ length d
  unfolding erase
  size-erase-le k [] = omega arith
  size-erase-le k ((i, w) ∷ d) = ground (arith, size-erase-le k d)

  pub insert-IsDict : (k : String) (v : V) (d : Dict V) → IsDict d → IsDict (insert k v d)
  unfolding lookup insert
  insert-IsDict k v [] h = (refl, tt)
  insert-IsDict k v ((i, w) ∷ d) h =
      ground (arith, eq_iff i k, eq_iff k i, lookup-insert k i v d, insert-IsDict k v d h.1)

  pub erase-IsDict : (k : String) (d : Dict V) → IsDict d → IsDict (erase k d)
  unfolding lookup erase
  erase-IsDict k [] h = tt
  erase-IsDict k ((i, w) ∷ d) h = ground (arith, lookup-erase k i d, erase-IsDict k d h.1)

  retain_missing :
      (p : String → V → Bool) (k : String) (d : Dict V)
      → lookup k d ≡ none
      → lookup k (retain p d) ≡ none
  unfolding lookup retain
  retain_missing p k [] h = refl
  retain_missing p k ((i, w) ∷ d) h = ground (arith, retain_missing p k d)

  pub retain-IsDict : (p : String → V → Bool) (d : Dict V) → IsDict d → IsDict (retain p d)
  unfolding lookup retain
  retain-IsDict p [] h = tt
  retain-IsDict p ((i, w) ∷ d) h = ground (arith, retain_missing p i d, retain-IsDict p d h.1)

  pub lookup-retain :
      (p : String → V → Bool) (k : String) (d : Dict V)
      → IsDict d
      → lookup k (retain p d)
        ≡ elim (lookup k d) [ none ↦ none | some v ↦ if p k v then some v else none ]
  unfolding lookup retain
  lookup-retain p k [] h = refl
  lookup-retain p k ((i, w) ∷ d) h =
      ground (arith, eq_iff i k, retain_missing p k d, lookup-retain p k d h.1)
