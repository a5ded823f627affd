-- ===== src/ResponseCache/Order.antt =====
-- The list of keys in the order of their last use, and what its updates keep.
use pre_code.Common.{
  suc, ◌≤◌, ◌≡◌, refl, Bool, false, ◌||◌, List, [], ◌∷◌, ◌++◌, String, str_eq, eq_iff, str_eq_refl,
  str_eq_comm, arith, length, length-append, if◌then◌else◌,
}

unfoldable pub listed : String → List String → Bool
listed k [] = false
listed k (j ∷ ks) = str_eq j k || listed k ks

-- `append(order[:i], order[i+1:]...)` at the first `i` that holds the key.
unfoldable pub remove_first : String → List String → List String
remove_first k [] = []
remove_first k (j ∷ ks) = if str_eq j k then ks else j ∷ remove_first k ks

-- The loop of `moveToEnd`, which changes nothing where the key is not found.
unfoldable pub move_to_end_of : String → List String → List String
unfolding listed remove_first
move_to_end_of k ks = if listed k ks then remove_first k ks ++ k ∷ [] else ks

abbrev pub IsDistinct : List String → Type 0
IsDistinct [] = Unit
IsDistinct (k ∷ ks) = (listed k ks ≡ false) × IsDistinct ks

pub listed-append :
    (k j : String) (ks : List String) → listed k (ks ++ j ∷ []) ≡ (listed k ks || str_eq j k)
unfolding listed
listed-append k j [] = ground arith
listed-append k j (i ∷ ks) = ground (arith, listed-append k j ks)

pub listed-remove_first :
    (k j : String) (ks : List String)
    → IsDistinct ks
    → listed k (remove_first j ks) ≡ (if str_eq j k then false else listed k ks)
unfolding listed remove_first
listed-remove_first k j [] h = ground arith
listed-remove_first k j (i ∷ ks) h =
    ground (arith, eq_iff i j, eq_iff i k, eq_iff j k, listed-remove_first k j ks h.1)

pub remove_first-IsDistinct :
    (j : String) (ks : List String) → IsDistinct ks → IsDistinct (remove_first j ks)
unfolding listed remove_first
remove_first-IsDistinct j [] h = tt
remove_first-IsDistinct j (i ∷ ks) h =
    ground (arith, listed-remove_first i j ks h.1, remove_first-IsDistinct j ks h.1)

pub append-IsDistinct :
    (k : String) (ks : List String)
    → IsDistinct ks
    → listed k ks ≡ false
    → IsDistinct (ks ++ k ∷ [])
unfolding listed
append-IsDistinct k [] h e = (refl, tt)
append-IsDistinct k (i ∷ ks) h e =
    ground (arith, listed-append i k ks, str_eq_comm i k, append-IsDistinct k ks h.1)

pub length-remove_first :
    (k : String) (ks : List String)
    → (if listed k ks then suc (length (remove_first k ks)) else length (remove_first k ks))
      ≡ length ks
unfolding listed remove_first
length-remove_first k [] = refl
length-remove_first k (i ∷ ks) = ground (arith, length-remove_first k ks)

pub move_to_end_of-IsDistinct :
    (k : String) (ks : List String) → IsDistinct ks → IsDistinct (move_to_end_of k ks)
unfolding move_to_end_of
move_to_end_of-IsDistinct k ks h = ground (
  arith,
  listed-remove_first k k ks h,
  str_eq_refl k,
  append-IsDistinct k (remove_first k ks) (remove_first-IsDistinct k ks h),
)

pub listed-move_to_end_of :
    (j k : String) (ks : List String) → IsDistinct ks → listed j (move_to_end_of k ks) ≡ listed j ks
unfolding move_to_end_of
listed-move_to_end_of j k ks h =
    ground (arith, listed-append j k (remove_first k ks), listed-remove_first j k ks h, eq_iff k j)

pub length-move_to_end_of :
    (k : String) (ks : List String) → length (move_to_end_of k ks) ≡ length ks
unfolding move_to_end_of
length-move_to_end_of k ks =
    ground (arith, length-remove_first k ks, length-append (remove_first k ks) (k ∷ []))

pub length-remove_first-le :
    (k : String) (ks : List String) → length (remove_first k ks) ≤ length ks
unfolding remove_first
length-remove_first-le k [] = omega arith
length-remove_first-le k (i ∷ ks) = ground (arith, length-remove_first-le k ks)
