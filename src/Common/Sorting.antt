-- ===== src/Common/Sorting.antt =====
-- Go's `sort.Slice`, as an insertion sort: of what it leaves open, the order of equal elements, it
-- keeps the order that they had.
use Prim.Native.Nat.{ℕ, zero, suc, ◌+◌, ◌≤◌, ◌<◌}
use mathlib.Core.Path.{◌≡◌, refl, subst}
use mathlib.Core.Logic.{inl, inr}
use mathlib.Core.Bool.{Bool, true, false}
use mathlib.Core.Option.{Option, none, some, some-injective}
use mathlib.Core.List.{List, [], ◌∷◌}
use native.Mathlib.Omega.{arith}
use pre_code.Common.Tests.{if◌then◌else◌, Bool-cases, leb}
use pre_code.Common.Lists.{All, length, count_if}

module _ {ℓ} {A : Type ℓ} (less : A → A → Bool) where
  unfoldable pub insert_by : A → List A → List A
  insert_by x [] = x ∷ []
  insert_by x (y ∷ ys) = let rest = insert_by x ys in if less y x then y ∷ rest else x ∷ y ∷ ys

  unfoldable pub sort_by : List A → List A
  unfolding insert_by
  sort_by [] = []
  sort_by (x ∷ xs) = insert_by x (sort_by xs)

  insert_by-All : (P : A → Type 0) (x : A) (xs : List A) → P x → All P xs → All P (insert_by x xs)
  unfolding insert_by
  insert_by-All P x [] p h = (p, tt)
  insert_by-All P x (y ∷ ys) p h = elim (Bool-cases (less y x)) [
    | inl is ↦ rw is (h.0, insert_by-All P x ys p h.1)
    | inr isnt ↦ rw isnt (p, h)
  ]

  pub sort_by-All : (P : A → Type 0) (xs : List A) → All P xs → All P (sort_by xs)
  unfolding sort_by
  sort_by-All P [] h = tt
  sort_by-All P (x ∷ xs) h = insert_by-All P x (sort_by xs) h.0 (sort_by-All P xs h.1)

  insert_by-count :
      (p : A → Bool) (x : A) (xs : List A) → count_if p (insert_by x xs) ≡ count_if p (x ∷ xs)
  unfolding insert_by
  insert_by-count p x [] = refl
  insert_by-count p x (y ∷ ys) = ground (arith, insert_by-count p x ys)

  pub sort_by-count : (p : A → Bool) (xs : List A) → count_if p (sort_by xs) ≡ count_if p xs
  unfolding sort_by
  sort_by-count p [] = refl
  sort_by-count p (x ∷ xs) = ground (arith, insert_by-count p x (sort_by xs), sort_by-count p xs)

  insert_by-length : (x : A) (xs : List A) → length (insert_by x xs) ≡ suc (length xs)
  unfolding insert_by
  insert_by-length x [] = refl
  insert_by-length x (y ∷ ys) = ground (arith, insert_by-length x ys)

  pub length-sort_by : (xs : List A) → length (sort_by xs) ≡ length xs
  unfolding sort_by
  length-sort_by [] = refl
  length-sort_by (x ∷ xs) = omega (arith, insert_by-length x (sort_by xs), length-sort_by xs)

-- Every element has at most the rank of all after it.
abbrev pub Ascending {ℓ} : {A : Type ℓ} → (A → ℕ) → List A → Type 0
Ascending f [] = Unit
Ascending f (x ∷ xs) = All (λ y. f x ≤ f y) xs × Ascending f xs

module _ {ℓ} {A : Type ℓ} (less : A → A → Bool) (f : A → ℕ)
    (below : (x y : A) → less x y ≡ true → f x ≤ f y)
    (above : (x y : A) → less x y ≡ false → f y ≤ f x) where
  All-weaken : (m n : ℕ) (xs : List A) → m ≤ n → All (λ y. n ≤ f y) xs → All (λ y. m ≤ f y) xs
  All-weaken m n [] l h = tt
  All-weaken m n (x ∷ xs) l h = (omega (arith, h.0), All-weaken m n xs l h.1)

  insert_by-Ascending : (x : A) (xs : List A) → Ascending f xs → Ascending f (insert_by less x xs)
  unfolding insert_by
  insert_by-Ascending x [] h = (tt, tt)
  insert_by-Ascending x (y ∷ ys) h = elim (Bool-cases (less y x)) [
    | inl is ↦
        rw is (
          insert_by-All less (λ z. f y ≤ f z) x ys (below y x is) h.0,
          insert_by-Ascending x ys h.1,
        )
    | inr isnt ↦ rw isnt ((above y x isnt, All-weaken (f x) (f y) ys (above y x isnt) h.0), h)
  ]

  pub sort_by-Ascending : (xs : List A) → Ascending f (sort_by less xs)
  unfolding sort_by
  sort_by-Ascending [] = tt
  sort_by-Ascending (x ∷ xs) = insert_by-Ascending x (sort_by less xs) (sort_by-Ascending xs)

-- `xs[i]`, with `none` for an index out of range.
unfoldable pub get_at {ℓ} : {A : Type ℓ} → List A → ℕ → Option A
get_at [] i = none
get_at (x ∷ xs) zero = some x
get_at (x ∷ xs) (suc i) = get_at xs i

pub get_at-below {ℓ} :
    {A : Type ℓ} (xs : List A) (i : ℕ) → i < length xs → (x : A) × (get_at xs i ≡ some x)
unfolding get_at
get_at-below [] i h = absurd (omega arith)
get_at-below (x ∷ xs) zero h = (x, refl)
get_at-below (x ∷ xs) (suc i) h = get_at-below xs i (omega arith)

All-get_at : (m : ℕ) (xs : List ℕ) (i x : ℕ) → All (λ y. m ≤ y) xs → get_at xs i ≡ some x → m ≤ x
unfolding get_at
All-get_at m [] i x h e = cc
All-get_at m (y ∷ ys) zero x h e = ground (arith, h.0, e)
All-get_at m (y ∷ ys) (suc i) x h e = All-get_at m ys i x h.1 e

All-count : (m : ℕ) (xs : List ℕ) → All (λ y. m ≤ y) xs → count_if (λ y. leb m y) xs ≡ length xs
All-count m [] h = refl
All-count m (x ∷ xs) h = ground (arith, All-count m xs h.1, h.0)

first-get_at :
    (x : ℕ) (xs : List ℕ)
    → Ascending (λ y. y) (x ∷ xs)
    → (0 + 1 ≤ count_if (λ y. leb y x) (x ∷ xs))
      × (length (x ∷ xs) ≤ 0 + count_if (λ y. leb x y) (x ∷ xs))
first-get_at x xs h = ground (arith, All-count x xs h.0)

-- In ascending numbers, the one at index `i` has `i + 1` numbers that it is not below, and as many
-- that it is not above as there are from it on.
pub Ascending-get_at :
    (xs : List ℕ) (i m : ℕ)
    → Ascending (λ y. y) xs
    → get_at xs i ≡ some m
    → (i + 1 ≤ count_if (λ y. leb y m) xs) × (length xs ≤ i + count_if (λ y. leb m y) xs)
unfolding get_at
Ascending-get_at [] i m h e = cc
Ascending-get_at (x ∷ xs) zero m h e =
    subst
      (λ (k : ℕ).
        (0 + 1 ≤ count_if (λ y. leb y k) (x ∷ xs))
        × (length (x ∷ xs) ≤ 0 + count_if (λ y. leb k y) (x ∷ xs)))
      (some-injective _ _ e) (first-get_at x xs h)
Ascending-get_at (x ∷ xs) (suc i) m h e =
    ground (arith, Ascending-get_at xs i m h.1 e, All-get_at x xs i m h.0 e)
