-- ===== src/ResponseCache/Lookup.antt =====
-- What a lookup finds after a response is stored.
use pre_code.Common.{
  ℕ, ◌+◌, ◌≤◌, ◌<◌, ◌≡◌, refl, ap, ◌⊎◌, false, Option, none, some, List, [], ◌∷◌, String, lookup,
  length, leb, str_eq, eq_iff, str_eq_refl, lookup-insert, lookup-erase, Bool-cases, inl, inr,
  leb→le, lt→ltb, le→ltb,
}
use pre_code.ResponseCache.Invariant.{Inv, with_room}
use pre_code.ResponseCache.Operations.{stored, store-stored}
use pre_code.ResponseCache.{
  CachedResponse, ResponseCache, evict_oldest, evict_head, move_to_end, get, put, put_entry, found,
  append_entry, expired, delete_entry,
}

lookup-stored :
    (key : String) (e : CachedResponse) (c : ResponseCache) (o : Option CachedResponse)
    → lookup key (stored key e c o).entries ≡ some e
unfolding stored move_to_end append_entry
lookup-stored key e c (some old) = rw (lookup-insert, str_eq_refl key) refl
lookup-stored key e c none = rw (lookup-insert, str_eq_refl key) refl

abbrev pub hit_of : CachedResponse → CachedResponse
hit_of e = record e { hit_count = e.hit_count + 1 }

found_live :
    (now : ℕ) (key : String) (e : CachedResponse) (c : ResponseCache)
    → lookup key c.entries ≡ some e
    → now ≤ e.expires_at
    → (get now key c).1 ≡ some (hit_of e)
unfolding get found expired
found_live now key e c y l = rw (y, le→ltb _ _ l) refl

found_old :
    (now : ℕ) (key : String) (e : CachedResponse) (c : ResponseCache)
    → lookup key c.entries ≡ some e
    → e.expires_at < now
    → ((get now key c).1 ≡ none) × (lookup key (get now key c).0.entries ≡ none)
unfolding get found expired delete_entry
found_old now key e c y l = rw (y, lt→ltb _ _ l) (refl, rw (lookup-erase, str_eq_refl key) refl)

-- In a cache with the invariant, `Put` ends, and a `Get` of the same key then returns the stored response, counted as one hit,
-- until its time to live is over; after that it returns nothing and the entry is gone.
pub put-get :
    (now later : ℕ) (key model prompt response : String) (tokens : ℕ) (tags : List String)
    (c : ResponseCache)
    → Inv c
    → (c' : ResponseCache) × (put now key model prompt response tokens tags c ≡ some c')
      × (later ≤ now + c.config.default_ttl
          → (get later key c').1
            ≡ some (record {
              key = key;
              model = model;
              prompt = prompt;
              response = response;
              tokens_used = tokens;
              hit_count = 1;
              created_at = now;
              expires_at = now + c.config.default_ttl;
              tags = tags;
            }))
      × (now + c.config.default_ttl < later
          → ((get later key c').1 ≡ none) × (lookup key (get later key c').0.entries ≡ none))
unfolding put put_entry
put-get now later key model prompt response tokens tags c h = (
  stored key e c (lookup key c.entries),
  store-stored key e c (lookup key c.entries) h,
  λ l.
      found_live later key e (stored key e c (lookup key c.entries))
        (lookup-stored key e c (lookup key c.entries)) l,
  λ l.
      found_old later key e (stored key e c (lookup key c.entries))
        (lookup-stored key e c (lookup key c.entries)) l,
)
  where
    e : CachedResponse
    e = record {
      key = key;
      model = model;
      prompt = prompt;
      response = response;
      tokens_used = tokens;
      hit_count = 0;
      created_at = now;
      expires_at = now + c.config.default_ttl;
      tags = tags;
    }

evict_head-others :
    (j : String) (ks : List String) (c : ResponseCache)
    → (lookup j (evict_head ks c).entries ≡ lookup j c.entries)
      ⊎ ((rest : List String) × (ks ≡ j ∷ rest))
unfolding evict_head
evict_head-others j [] c = inl refl
evict_head-others j (k ∷ rest) c = elim (Bool-cases (str_eq k j)) [
  | inl same ↦ inr (rest, ap (λ (x : String). x ∷ rest) ((eq_iff k j).0 same))
  | inr other ↦ inl (rw (lookup-erase, other) refl)
]

stored-others :
    (key j : String) (e : CachedResponse) (c : ResponseCache) (o : Option CachedResponse)
    → str_eq key j ≡ false
    → (lookup j (stored key e c o).entries ≡ lookup j c.entries)
      ⊎ ((rest : List String) × (o ≡ none)
          × (c.config.max_size ≤ length c.entries)
          × (c.order ≡ j ∷ rest))
unfolding stored move_to_end append_entry with_room evict_oldest
stored-others key j e c (some old) n = inl (rw (lookup-insert, n) refl)
stored-others key j e c none n = elim (Bool-cases (leb c.config.max_size (length c.entries))) [
  | inr free ↦ inl (rw free (rw (lookup-insert, n) refl))
  | inl full ↦ elim (evict_head-others j c.order c) [
    | inl same ↦ inl (rw full (rw (lookup-insert, n) same))
    | inr (rest, first) ↦ inr (rest, refl, leb→le _ _ full, first)
  ]
]

-- In a cache with the invariant, storing under one key leaves what is found under another as it was, but for the least recently
-- used key, and that only where the stored key is new and the cache is full.
pub put-others :
    (now : ℕ) (key j model prompt response : String) (tokens : ℕ) (tags : List String)
    (c : ResponseCache)
    → Inv c
    → str_eq key j ≡ false
    → (c' : ResponseCache) × (put now key model prompt response tokens tags c ≡ some c')
      × ((lookup j c'.entries ≡ lookup j c.entries)
          ⊎ ((rest : List String) × (lookup key c.entries ≡ none)
              × (c.config.max_size ≤ length c.entries)
              × (c.order ≡ j ∷ rest)))
unfolding put put_entry
put-others now key j model prompt response tokens tags c h n = (
  _,
  store-stored key _ c (lookup key c.entries) h,
  stored-others key j _ c (lookup key c.entries) n,
)
