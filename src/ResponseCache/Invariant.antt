-- ===== src/ResponseCache/Invariant.antt =====
-- The map and the list of keys stay in step, within the size; so the eviction loop ends.
use pre_code.Common.{
  suc, ◌≤◌, ◌<◌, ◌≡◌, refl, sym, ◌∙◌, Bool, true, false, none, some, List, [], ◌∷◌, String, Dict,
  IsDict, lookup, insert, length, leb, eq_iff, str_eq_refl, lookup-insert, lookup-erase,
  size-insert, size-erase, insert-IsDict, erase-IsDict, erase_missing, size-erase-le, subst, ap,
  if◌then◌else◌, arith, length-append, Bool-cases, inl, inr, leb→le, lt→leb,
}
use pre_code.ResponseCache.Order.{
  listed, IsDistinct, listed-append, listed-remove_first, remove_first-IsDistinct,
  append-IsDistinct, length-remove_first, move_to_end_of-IsDistinct, listed-move_to_end_of,
  length-move_to_end_of,
}
use pre_code.ResponseCache.{
  CachedResponse, Config, ResponseCache, new, delete_entry, evict_oldest, move_to_end, make_room,
  append_entry, evict_head,
}

abbrev pub has : String → Dict CachedResponse → Bool
has k d = elim (lookup k d) [ none ↦ false | some _ ↦ true ]

pub has-some :
    {e : CachedResponse} (k : String) (d : Dict CachedResponse)
    → lookup k d ≡ some e
    → has k d ≡ true
has-some k d h = ground arith

pub has-none : (k : String) (d : Dict CachedResponse) → lookup k d ≡ none → has k d ≡ false
has-none k d h = ground arith

pub record Inv (c : ResponseCache) : Type 0 where
  pub dict : IsDict c.entries
  pub distinct : IsDistinct c.order
  pub same_keys : (k : String) → listed k c.order ≡ has k c.entries
  pub same_size : length c.order ≡ length c.entries
  pub bounded : length c.entries ≤ c.config.max_size
  pub roomy : 0 < c.config.max_size

pub new-Inv : (cfg : Config) → Inv (new cfg)
unfolding new lookup listed
new-Inv cfg = record {
  dict = tt;
  distinct = tt;
  same_keys = λ k. refl;
  same_size = refl;
  bounded = omega arith;
  roomy = ground arith;
}

pub delete_entry-Inv : (key : String) (c : ResponseCache) → Inv c → Inv (delete_entry key c)
unfolding delete_entry
delete_entry-Inv key c h = record {
  dict = erase-IsDict key c.entries h.dict;
  distinct = remove_first-IsDistinct key c.order h.distinct;
  same_keys = λ k. ground (
    arith,
    listed-remove_first k key c.order h.distinct,
    lookup-erase key k c.entries,
    h.same_keys k,
  );
  same_size = ground (
    arith,
    length-remove_first key c.order,
    size-erase key c.entries h.dict,
    erase_missing key c.entries,
    h.same_size,
    h.same_keys key,
  );
  bounded = omega (arith, size-erase-le key c.entries, h.bounded);
  roomy = h.roomy;
}

pub move_to_end-Inv : (key : String) (c : ResponseCache) → Inv c → Inv (move_to_end key c)
unfolding move_to_end
move_to_end-Inv key c h = record {
  dict = h.dict;
  distinct = move_to_end_of-IsDistinct key c.order h.distinct;
  same_keys = λ k. listed-move_to_end_of k key c.order h.distinct ∙ h.same_keys k;
  same_size = length-move_to_end_of key c.order ∙ h.same_size;
  bounded = h.bounded;
  roomy = h.roomy;
}

-- Writing to a key that is there.
pub overwrite-Inv :
    (key : String) (e : CachedResponse) (c : ResponseCache)
    → has key c.entries ≡ true
    → Inv c
    → Inv (record c { entries = insert key e c.entries })
overwrite-Inv key e c y h = record {
  dict = insert-IsDict key e c.entries h.dict;
  distinct = h.distinct;
  same_keys = λ k. ground (arith, lookup-insert key k e c.entries, h.same_keys k, eq_iff key k);
  same_size = ground (arith, size-insert key e c.entries, h.same_size);
  bounded = ground (arith, size-insert key e c.entries, h.bounded);
  roomy = h.roomy;
}

evict_head-Inv :
    (ks : List String) (c : ResponseCache) → c.order ≡ ks → Inv c → Inv (evict_head ks c)
unfolding evict_head delete_entry
evict_head-Inv [] c e h = h
evict_head-Inv (key ∷ rest) c e h = record {
  dict = d.dict;
  distinct = subst IsDistinct gone d.distinct;
  same_keys = λ k. ap (listed k) (sym gone) ∙ d.same_keys k;
  same_size = ap length (sym gone) ∙ d.same_size;
  bounded = d.bounded;
  roomy = h.roomy;
}
  where
    d : Inv (delete_entry key c)
    d = delete_entry-Inv key c h

    gone : (delete_entry key c).order ≡ rest
    gone = rw (e, str_eq_refl key) refl

pub append_entry-Inv :
    (key : String) (e : CachedResponse) (c : ResponseCache)
    → has key c.entries ≡ false
    → length c.entries < c.config.max_size
    → Inv c
    → Inv (append_entry key e c)
unfolding append_entry
append_entry-Inv key e c y l h = record {
  dict = insert-IsDict key e c.entries h.dict;
  distinct = append-IsDistinct key c.order h.distinct (h.same_keys key ∙ y);
  same_keys = λ k.
      ground (arith, listed-append k key c.order, lookup-insert key k e c.entries, h.same_keys k);
  same_size =
      ground (arith, size-insert key e c.entries, h.same_size, length-append c.order (key ∷ []));
  bounded = ground (arith, size-insert key e c.entries);
  roomy = h.roomy;
}

evict_oldest-Inv : (c : ResponseCache) → Inv c → Inv (evict_oldest c)
unfolding evict_oldest
evict_oldest-Inv c h = evict_head-Inv c.order c refl h

size-evict_oldest :
    (c : ResponseCache)
    → Inv c
    → 0 < length c.entries
    → suc (length (evict_oldest c).entries) ≡ length c.entries
unfolding evict_oldest listed
size-evict_oldest c h l = go c.order refl
  where
    go :
        (ks : List String)
        → c.order ≡ ks
        → suc (length (evict_head ks c).entries) ≡ length c.entries
    go [] e = absurd (omega (arith, h.same_size, ap length e))
    go (key ∷ rest) e =
        let y : has key c.entries ≡ true =
          sym (h.same_keys key) ∙ ap (listed key) e ∙ rw (str_eq_refl key) refl in
        ground (arith, size-erase key c.entries h.dict)

pub config-evict_oldest : (c : ResponseCache) → (evict_oldest c).config ≡ c.config
unfolding evict_oldest
config-evict_oldest c = go c.order
  where
    go : (ks : List String) → (evict_head ks c).config ≡ c.config
    go [] = refl
    go (key ∷ rest) = refl

-- A cache that is full loses the least recently used entry; any other keeps all.
unfoldable pub with_room : ResponseCache → ResponseCache
with_room c = if leb c.config.max_size (length c.entries) then evict_oldest c else c

-- In a cache with the invariant the eviction loop ends, after one round at most.
pub make_room-with_room :
    (c : ResponseCache) → Inv c → make_room (suc (length c.entries)) c ≡ some (with_room c)
unfolding make_room with_room
make_room-with_room c h = elim (Bool-cases (leb c.config.max_size (length c.entries))) [
  | inr free ↦ rw free refl
  | inl full ↦
      let l : 0 < length c.entries = omega (arith, h.roomy, leb→le _ _ full) in
      let one = size-evict_oldest c h l in
      let room : leb (evict_oldest c).config.max_size (length (evict_oldest c).entries) ≡ false =
        rw (config-evict_oldest c) (lt→leb _ _ (omega (arith, h.bounded, one))) in
      rw full (rw (← one) (simp room refl))
]

pub with_room-Inv :
    (c : ResponseCache)
    → Inv c
    → Inv (with_room c) × (length (with_room c).entries < (with_room c).config.max_size)
unfolding with_room
with_room-Inv c h = elim (Bool-cases (leb c.config.max_size (length c.entries))) [
  | inr free ↦ rw free (h, ground (arith, h.bounded))
  | inl full ↦ rw full (
    evict_oldest-Inv c h,
    rw (config-evict_oldest c)
        (omega (arith, h.bounded, size-evict_oldest c h (omega (arith, h.roomy, leb→le _ _ full)))),
  )
]

pub has-with_room :
    (key : String) (c : ResponseCache)
    → has key c.entries ≡ false
    → has key (with_room c).entries ≡ false
unfolding with_room evict_oldest
has-with_room key c y = elim (Bool-cases (leb c.config.max_size (length c.entries))) [
  | inr free ↦ rw free y
  | inl full ↦ rw full (go c.order)
]
  where
    go : (ks : List String) → has key (evict_head ks c).entries ≡ false
    go [] = y
    go (k ∷ rest) = ground (arith, lookup-erase k key c.entries, y)
