-- ===== src/ResponseCache/Recency.antt =====
-- Least recently used: what was used lately survives.
use pre_code.Common.{
  ℕ, suc, ◌+◌, ◌≤◌, ◌<◌, ◌≡◌, refl, sym, ◌∙◌, ap, true, false, Option, none, some, List, [], ◌∷◌,
  ◌++◌, String, All, lookup, length, length-append, leb, str_eq, eq_iff, str_eq_refl, lookup-insert,
  lookup-erase, if◌then◌else◌, arith, Bool-cases, inl, inr, leb→le, subst,
}
use pre_code.ResponseCache.Order.{
  listed, remove_first, move_to_end_of, IsDistinct, listed-remove_first, length-remove_first-le,
}
use pre_code.ResponseCache.Invariant.{Inv, has, with_room, delete_entry-Inv, config-evict_oldest}
use pre_code.ResponseCache.Operations.{
  Op, gets, puts, puts_with_ttl, deletes, clears, purges, step, run_ops, stored, store-stored,
  stored-Inv, get-Inv,
}
use pre_code.ResponseCache.{
  CachedResponse, ResponseCache, evict_oldest, evict_head, move_to_end, get, put, put_with_ttl,
  put_entry, delete, deleted, found, append_entry, expired, delete_entry,
}

-- How many keys were used after this one.
unfoldable pub used_after : String → List String → ℕ
used_after k [] = 0
used_after k (j ∷ ks) = if str_eq j k then length ks else used_after k ks

used_after-le-length : (k : String) (ks : List String) → used_after k ks ≤ length ks
unfolding used_after
used_after-le-length k [] = omega arith
used_after-le-length k (j ∷ ks) = ground (arith, used_after-le-length k ks)

used_after-append :
    (k j : String) (ks : List String)
    → listed k ks ≡ true
    → used_after k (ks ++ j ∷ []) ≡ suc (used_after k ks)
unfolding used_after listed
used_after-append k j [] h = cc
used_after-append k j (i ∷ ks) h =
    ground (arith, length-append ks (j ∷ []), used_after-append k j ks)

used_after-remove_first :
    (k j : String) (ks : List String)
    → str_eq j k ≡ false
    → used_after k (remove_first j ks) ≤ used_after k ks
unfolding used_after remove_first
used_after-remove_first k j [] n = omega arith
used_after-remove_first k j (i ∷ ks) n = ground (
  arith,
  eq_iff i j,
  eq_iff i k,
  eq_iff j k,
  used_after-remove_first k j ks,
  length-remove_first-le j ks,
)

used_after-move_to_end_of :
    (k j : String) (ks : List String)
    → IsDistinct ks
    → str_eq j k ≡ false
    → listed k ks ≡ true
    → used_after k (move_to_end_of j ks) ≤ suc (used_after k ks)
unfolding move_to_end_of
used_after-move_to_end_of k j ks d n h = ground (
  arith,
  listed-remove_first k j ks d,
  used_after-append k j (remove_first j ks),
  used_after-remove_first k j ks n,
)

used_after_end :
    (k : String) (ks : List String) → listed k ks ≡ false → used_after k (ks ++ k ∷ []) ≡ 0
unfolding used_after listed
used_after_end k [] h = rw (str_eq_refl k) refl
used_after_end k (i ∷ ks) h = ground (arith, used_after_end k ks)

used_after-move_to_end_of_self :
    (k : String) (ks : List String)
    → IsDistinct ks
    → listed k ks ≡ true
    → used_after k (move_to_end_of k ks) ≡ 0
unfolding move_to_end_of
used_after-move_to_end_of_self k ks d h =
    ground
      (arith, str_eq_refl k, listed-remove_first k k ks d, used_after_end k (remove_first k ks))

-- The key is cached and at most `n` keys were used after it.
record Recent (k : String) (n : ℕ) (c : ResponseCache) : Type 0 where
  inv : Inv c
  cached : has k c.entries ≡ true
  rank : used_after k c.order ≤ n

Recent-listed : (k : String) {n : ℕ} (c : ResponseCache) → Recent k n c → listed k c.order ≡ true
Recent-listed k c h = h.inv.same_keys k ∙ h.cached

Recent-weaken : (k : String) (n : ℕ) (c : ResponseCache) → Recent k n c → Recent k (n + 1) c
Recent-weaken k n c h = record { inv = h.inv; cached = h.cached; rank = omega (arith, h.rank) }

-- What one operation may do to a key that is to stay: it deletes neither it nor everything, and a
-- read of the key itself comes before it expires, which is left out by asking for another key.
abbrev pub Spares : String → Op → Type 0
Spares k (gets now j) = str_eq j k ≡ false
Spares k (puts now j m p r t tags) = Unit
Spares k (puts_with_ttl now j m p r t ttl) = Unit
Spares k (deletes j) = str_eq j k ≡ false
Spares k clears = ⊥
Spares k (purges now) = ⊥

delete_entry-Recent :
    (k j : String) (n : ℕ) (c : ResponseCache)
    → str_eq j k ≡ false
    → Recent k n c
    → (has k (delete_entry j c).entries ≡ true) × (used_after k (delete_entry j c).order ≤ n)
unfolding delete_entry
delete_entry-Recent k j n c e h =
    ground
      (arith, lookup-erase j k c.entries, h.cached, h.rank, used_after-remove_first k j c.order e)

found-Recent :
    (now : ℕ) (k j : String) (n : ℕ) (c : ResponseCache) (o : Option CachedResponse)
    → str_eq j k ≡ false
    → Recent k n c
    → let c' = (found now j c o).0 in (has k c'.entries ≡ true) × (used_after k c'.order ≤ n + 1)
unfolding found
found-Recent now k j n c none e h = (h.cached, omega (arith, h.rank))
found-Recent now k j n c (some r) e h = elim (Bool-cases (expired now r)) [
  | inl old ↦ let d = delete_entry-Recent k j n c e h in rw old (d.0, omega (arith, d.1))
  | inr live ↦ rw live (
    ground
        (arith, lookup-insert j k (record r { hit_count = r.hit_count + 1 }) c.entries, h.cached),
    omega (
      arith,
      h.rank,
      used_after-move_to_end_of k j c.order h.inv.distinct e (Recent-listed k c h),
    ),
  )
]

used_after_head :
    (k : String) (n : ℕ) (j : String) (rest : List String)
    → used_after k (j ∷ rest) ≤ n
    → n < length rest
    → (str_eq j k ≡ false) × (used_after k rest ≤ n)
unfolding used_after
used_after_head k n j rest h l = ground arith

listed_tail :
    (k j : String) (rest : List String)
    → str_eq j k ≡ false
    → listed k (j ∷ rest) ≡ true
    → listed k rest ≡ true
unfolding listed
listed_tail k j rest n h = ground arith

evict_head-Recent :
    (k : String) (n : ℕ) (ks : List String) (c : ResponseCache)
    → c.order ≡ ks
    → n + 1 < length ks
    → Recent k n c
    → let c' = evict_head ks c in
      (has k c'.entries ≡ true) × (listed k c'.order ≡ true) × (used_after k c'.order ≤ n)
unfolding evict_head
evict_head-Recent k n [] c e l h = absurd (omega arith)
evict_head-Recent k n (j ∷ rest) c e l h =
    let first =
      used_after_head k n j rest (subst (λ ks. used_after k ks ≤ n) e h.rank) (omega arith) in
    let there : listed k (j ∷ rest) ≡ true = ap (listed k) (sym e) ∙ Recent-listed k c h in
    (
      ground (arith, lookup-erase j k c.entries, h.cached, first),
      listed_tail k j rest first.0 there,
      first.1,
    )

with_room-Recent :
    (k : String) (n : ℕ) (c : ResponseCache)
    → n + 1 < c.config.max_size
    → Recent k n c
    → let c' = with_room c in
      (has k c'.entries ≡ true) × (listed k c'.order ≡ true) × (used_after k c'.order ≤ n)
unfolding with_room evict_oldest
with_room-Recent k n c l h = elim (Bool-cases (leb c.config.max_size (length c.entries))) [
  | inr free ↦ rw free (h.cached, Recent-listed k c h, h.rank)
  | inl full ↦
      let long : n + 1 < length c.order = omega (arith, leb→le _ _ full, h.inv.same_size) in
      rw full (evict_head-Recent k n c.order c refl long h)
]

stored-Recent :
    (k key : String) (e : CachedResponse) (n : ℕ) (c : ResponseCache) (o : Option CachedResponse)
    → n + 1 < c.config.max_size
    → Recent k n c
    → let c' = stored key e c o in (has k c'.entries ≡ true) × (used_after k c'.order ≤ n + 1)
unfolding stored move_to_end append_entry
stored-Recent k key e n c (some old) l h = (
  ground (arith, lookup-insert key k e c.entries, h.cached),
  elim (Bool-cases (str_eq key k)) [
    | inl same ↦ rw ((eq_iff key k).0 same) (
        omega
          (arith, used_after-move_to_end_of_self k c.order h.inv.distinct (Recent-listed k c h)))
    | inr other ↦ omega (
      arith,
      h.rank,
      used_after-move_to_end_of k key c.order h.inv.distinct other (Recent-listed k c h),
    )
  ],
)
stored-Recent k key e n c none l h =
    let room = with_room-Recent k n c l h in
    (
      ground (arith, lookup-insert key k e (with_room c).entries, room.0),
      omega (arith, used_after-append k key (with_room c).order room.1, room.2),
    )

config-stored :
    (key : String) (e : CachedResponse) (c : ResponseCache) (o : Option CachedResponse)
    → (stored key e c o).config ≡ c.config
unfolding stored move_to_end append_entry with_room
config-stored key e c (some old) = refl
config-stored key e c none = elim (Bool-cases (leb c.config.max_size (length c.entries))) [
  | inr free ↦ rw free refl
  | inl full ↦ rw full (config-evict_oldest c)
]

config-get : (now : ℕ) (key : String) (c : ResponseCache) → (get now key c).0.config ≡ c.config
unfolding get found
config-get now key c = ground arith

deleted-Recent :
    (k j : String) (n : ℕ) (c : ResponseCache) (o : Option CachedResponse)
    → str_eq j k ≡ false
    → Recent k n c
    → let c' = (deleted j c o).0 in Recent k (n + 1) c' × (c'.config ≡ c.config)
unfolding deleted
deleted-Recent k j n c none e h = (Recent-weaken k n c h, refl)
deleted-Recent k j n c (some r) e h =
    let d = delete_entry-Recent k j n c e h in
    (
      record { inv = delete_entry-Inv j c h.inv; cached = d.0; rank = omega (arith, d.1) },
      unfold delete_entry in refl,
    )

-- One operation costs a key that it spares one rank at most.
step-Recent :
    (k : String) (n : ℕ) (o : Op) (c : ResponseCache)
    → n + 1 < c.config.max_size
    → Spares k o
    → Recent k n c
    → (c' : ResponseCache) × (step o c ≡ some c') × Recent k (n + 1) c' × (c'.config ≡ c.config)
unfolding step get put put_with_ttl put_entry delete
step-Recent k n (gets now j) c l s h =
    let r = found-Recent now k j n c (lookup j c.entries) s h in
    (_, refl, record { inv = get-Inv now j c h.inv; cached = r.0; rank = r.1 }, config-get now j c)
step-Recent k n (puts now j m p a t tags) c l s h =
    let o = lookup j c.entries in
    let r = stored-Recent k j _ n c o l h in
    (
      _,
      store-stored j _ c o h.inv,
      record { inv = stored-Inv j _ c o refl h.inv; cached = r.0; rank = r.1 },
      config-stored j _ c o,
    )
step-Recent k n (puts_with_ttl now j m p a t ttl) c l s h =
    let o = lookup j c.entries in
    let r = stored-Recent k j _ n c o l h in
    (
      _,
      store-stored j _ c o h.inv,
      record { inv = stored-Inv j _ c o refl h.inv; cached = r.0; rank = r.1 },
      config-stored j _ c o,
    )
step-Recent k n (deletes j) c l s h =
    let r = deleted-Recent k j n c (lookup j c.entries) s h in (_, refl, r.0, r.1)
step-Recent k n clears c l s h = absurd s
step-Recent k n (purges now) c l s h = absurd s

run-Recent :
    (k : String) (n : ℕ) (os : List Op) (c : ResponseCache)
    → n + length os < c.config.max_size
    → All (Spares k) os
    → Recent k n c
    → (c' : ResponseCache) × (run_ops os c ≡ some c') × (has k c'.entries ≡ true)
unfolding run_ops
run-Recent k n [] c l s h = (c, refl, h.cached)
run-Recent k n (o ∷ os) c l s h =
    let (c', e, r, g) = step-Recent k n o c (omega arith) s.0 h in
    let (d, f, y) = run-Recent k (n + 1) os c' (rw g (omega arith)) s.1 r in (d, rw e f, y)

-- In a cache with the invariant, a key that was used more recently than all but `n` others is still cached after any
-- further reads of other keys, writes of any keys and deletions of other keys, as long as `n` and
-- the number of these operations together stay below the cache's size.
pub run_ops-keeps_recent :
    (k : String) (os : List Op) (c : ResponseCache)
    → Inv c
    → has k c.entries ≡ true
    → used_after k c.order + length os < c.config.max_size
    → All (Spares k) os
    → (c' : ResponseCache) × (run_ops os c ≡ some c') × (has k c'.entries ≡ true)
run_ops-keeps_recent k os c h y l s =
    run-Recent k (used_after k c.order) os c l s
      (record { inv = h; cached = y; rank = omega arith })
