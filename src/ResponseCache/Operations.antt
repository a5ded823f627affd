-- ===== src/ResponseCache/Operations.antt =====
-- Every method, after any history, keeps the invariant and ends.
use pre_code.Common.{
  ℕ, ◌+◌, ◌≡◌, refl, Option, none, some, List, [], ◌∷◌, String, lookup, insert, arith, Bool-cases,
  inl, inr,
}
use pre_code.ResponseCache.Order.{listed}
use pre_code.ResponseCache.Invariant.{
  Inv, has-some, has-none, new-Inv, delete_entry-Inv, move_to_end-Inv, overwrite-Inv,
  append_entry-Inv, with_room, make_room-with_room, with_room-Inv, has-with_room,
}
use pre_code.ResponseCache.{
  CachedResponse, Config, ResponseCache, new, delete_entry, move_to_end, get, put, put_with_ttl,
  put_entry, delete, clear, purge_expired, found, append_entry, store, deleted, delete_all, expired,
  expired_keys,
}

-- A change of the counters alone.
recount :
    {c c' : ResponseCache}
    → c'.entries ≡ c.entries
    → c'.order ≡ c.order
    → c'.config ≡ c.config
    → Inv c
    → Inv c'
recount {c} {c'} e o g h = record {
  dict = rw e h.dict;
  distinct = rw o h.distinct;
  same_keys = λ k. rw (e, o) (h.same_keys k);
  same_size = rw (e, o) h.same_size;
  bounded = rw (e, g) h.bounded;
  roomy = rw g h.roomy;
}

found-Inv :
    (now : ℕ) (key : String) (c : ResponseCache) (o : Option CachedResponse)
    → lookup key c.entries ≡ o
    → Inv c
    → Inv (found now key c o).0
unfolding found
found-Inv now key c none e h = recount refl refl refl h
found-Inv now key c (some r) e h = elim (Bool-cases (expired now r)) [
  | inl old ↦ rw old (recount refl refl refl (delete_entry-Inv key c h))
  | inr live ↦
      let hit = record r { hit_count = r.hit_count + 1 } in
      rw live (
        recount refl refl refl (
          overwrite-Inv key hit (move_to_end key c) (unfold move_to_end in has-some key c.entries e)
            (move_to_end-Inv key c h)))
]

pub get-Inv : (now : ℕ) (key : String) (c : ResponseCache) → Inv c → Inv (get now key c).0
unfolding get
get-Inv now key c h = found-Inv now key c (lookup key c.entries) refl h

-- What is stored, and in which cache.
unfoldable pub stored :
    String → CachedResponse → ResponseCache → Option CachedResponse → ResponseCache
stored key e c (some old) = move_to_end key (record c { entries = insert key e c.entries })
stored key e c none = append_entry key e (with_room c)

pub store-stored :
    (key : String) (e : CachedResponse) (c : ResponseCache) (o : Option CachedResponse)
    → Inv c
    → store key e c o ≡ some (stored key e c o)
unfolding store stored
store-stored key e c (some old) h = refl
store-stored key e c none h = rw (make_room-with_room c h, store) refl

pub stored-Inv :
    (key : String) (e : CachedResponse) (c : ResponseCache) (o : Option CachedResponse)
    → lookup key c.entries ≡ o
    → Inv c
    → Inv (stored key e c o)
unfolding stored
stored-Inv key e c (some old) y h =
    move_to_end-Inv key _ (overwrite-Inv key e c (has-some key c.entries y) h)
stored-Inv key e c none y h =
    let room = with_room-Inv c h in
    append_entry-Inv key e (with_room c) (has-with_room key c (has-none key c.entries y)) room.1
      room.0

deleted-Inv :
    (key : String) (c : ResponseCache) (o : Option CachedResponse) → Inv c → Inv (deleted key c o).0
unfolding deleted
deleted-Inv key c none h = h
deleted-Inv key c (some e) h = delete_entry-Inv key c h

delete_all-Inv : (ks : List String) (c : ResponseCache) → Inv c → Inv (delete_all ks c)
unfolding delete_all
delete_all-Inv [] c h = h
delete_all-Inv (k ∷ ks) c h = delete_all-Inv ks (delete_entry k c) (delete_entry-Inv k c h)

clear-Inv : (c : ResponseCache) → Inv c → Inv (clear c)
unfolding clear lookup listed
clear-Inv c h = record {
  dict = tt;
  distinct = tt;
  same_keys = λ k. refl;
  same_size = refl;
  bounded = omega arith;
  roomy = h.roomy;
}

-- The methods that change the cache, with the time of the call.
pub data Op : Type 0 where
  gets : ℕ → String → Op
  puts : ℕ → String → String → String → String → ℕ → List String → Op
  puts_with_ttl : ℕ → String → String → String → String → ℕ → ℕ → Op
  deletes : String → Op
  clears : Op
  purges : ℕ → Op

unfoldable pub step : Op → ResponseCache → Option ResponseCache
step (gets now key) c = some (get now key c).0
step (puts now key model prompt response tokens tags) c =
    put now key model prompt response tokens tags c
step (puts_with_ttl now key model prompt response tokens ttl) c =
    put_with_ttl now key model prompt response tokens ttl c
step (deletes key) c = some (delete key c).0
step clears c = some (clear c)
step (purges now) c = some (purge_expired now c).0

pub run_next : (ResponseCache → Option ResponseCache) → Option ResponseCache → Option ResponseCache
run_next go none = none
run_next go (some c) = go c

unfoldable pub run_ops : List Op → ResponseCache → Option ResponseCache
unfolding run_next
run_ops [] c = some c
run_ops (o ∷ os) c = run_next (λ c'. run_ops os c') (step o c)

pub step-Inv :
    (o : Op) (c : ResponseCache) → Inv c → (c' : ResponseCache) × (step o c ≡ some c') × Inv c'
unfolding step put put_with_ttl put_entry delete purge_expired
step-Inv (gets now key) c h = ((get now key c).0, refl, get-Inv now key c h)
step-Inv (puts now key model prompt response tokens tags) c h = (
  _,
  store-stored key _ c (lookup key c.entries) h,
  stored-Inv key _ c (lookup key c.entries) refl h,
)
step-Inv (puts_with_ttl now key model prompt response tokens ttl) c h = (
  _,
  store-stored key _ c (lookup key c.entries) h,
  stored-Inv key _ c (lookup key c.entries) refl h,
)
step-Inv (deletes key) c h = (_, refl, deleted-Inv key c (lookup key c.entries) h)
step-Inv clears c h = (clear c, refl, clear-Inv c h)
step-Inv (purges now) c h = (_, refl, delete_all-Inv (expired_keys now c.entries) c h)

run_ops-Inv_from :
    (os : List Op) (c : ResponseCache)
    → Inv c
    → (c' : ResponseCache) × (run_ops os c ≡ some c') × Inv c'
unfolding run_ops
run_ops-Inv_from [] c h = (c, refl, h)
run_ops-Inv_from (o ∷ os) c h =
    let (c', e, k) = step-Inv o c h in let (d, f, g) = run_ops-Inv_from os c' k in (d, rw e f, g)

-- After any sequence of method calls on a new cache, at any times: no call runs for ever, no key
-- has two entries, the list of keys holds exactly the keys of the map, once each, and the cache has
-- at most as many entries as its size allows.
pub run_ops-Inv :
    (cfg : Config) (os : List Op) → (c : ResponseCache) × (run_ops os (new cfg) ≡ some c) × Inv c
run_ops-Inv cfg os = run_ops-Inv_from os (new cfg) (new-Inv cfg)
