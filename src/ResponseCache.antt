-- ===== src/ResponseCache.antt =====
-- The cache of LLM responses (internal/cache/response_cache.go): a map with a list of its keys,
-- least recently used first. The lock makes each method one step. Times and durations are
-- nanoseconds; `CostUSD` and `TotalSavedUSD`, floats that are only added, are left out, and so is
-- `HashPrompt`, whose SHA-256 is no code of the repository: `get` takes the key.
mod Order
pub mod Invariant
pub mod Operations
pub mod Lookup
pub mod Recency
mod Examples
unfoldable pub use Order.{remove_first, move_to_end_of, listed}
use pre_code.Common.{
  ℕ, zero, suc, ◌+◌, ◌≡◌, Bool, true, false, Option, none, some, List, [], ◌∷◌, ◌++◌, String, Dict,
  lookup, insert, erase, length, ltb, leb, ◌==◌, if◌then◌else◌,
}

pub record CachedResponse : Type 0 where
  pub key : String
  pub model : String
  pub prompt : String
  pub response : String
  pub tokens_used : ℕ
  pub hit_count : ℕ
  pub created_at : ℕ
  pub expires_at : ℕ
  pub tags : List String

-- A negative size acts as 0: both ask for the default.
pub record Config : Type 0 where
  pub max_size : ℕ
  pub default_ttl : ℕ

pub record ResponseCache : Type 0 where
  pub entries : Dict CachedResponse
  pub order : List String
  pub config : Config
  pub hits : ℕ
  pub misses : ℕ
  pub evictions : ℕ

unfoldable pub new : Config → ResponseCache
new cfg = record {
  entries = [];
  order = [];
  config = record {
    max_size = if cfg.max_size == 0 then 10000 else cfg.max_size;
    default_ttl = if cfg.default_ttl == 0 then 86400000000000 else cfg.default_ttl;
  };
  hits = 0;
  misses = 0;
  evictions = 0;
}

unfoldable pub delete_entry : String → ResponseCache → ResponseCache
unfolding remove_first
delete_entry key c = record c { entries = erase key c.entries; order = remove_first key c.order }

evict_head : List String → ResponseCache → ResponseCache
evict_head [] c = c
evict_head (key ∷ rest) c = record c {
  order = rest;
  entries = erase key c.entries;
  evictions = c.evictions + 1;
}

unfoldable pub evict_oldest : ResponseCache → ResponseCache
unfolding evict_head
evict_oldest c = evict_head c.order c

unfoldable pub move_to_end : String → ResponseCache → ResponseCache
unfolding move_to_end_of
move_to_end key c = record c { order = move_to_end_of key c.order }

-- `now.After(entry.ExpiresAt)`
pub expired : ℕ → CachedResponse → Bool
expired now e = ltb e.expires_at now

found : ℕ → String → ResponseCache → Option CachedResponse → ResponseCache × Option CachedResponse
unfolding delete_entry move_to_end expired
found now key c none = (record c { misses = c.misses + 1 }, none)
found now key c (some e) =
    if expired now e
    then (let c' = delete_entry key c in (record c' { misses = c'.misses + 1 }, none))
    else (let hit = record e { hit_count = e.hit_count + 1 } in
        let c' = move_to_end key c in
        (record c' { entries = insert key hit c'.entries; hits = c'.hits + 1 }, some hit))

unfoldable pub get : ℕ → String → ResponseCache → ResponseCache × Option CachedResponse
unfolding found
get now key c = found now key c (lookup key c.entries)

-- `for len(c.entries) >= c.config.MaxSize { c.evictOldest() }`: `none` says that the rounds given
-- were not enough.
unfoldable pub make_room : ℕ → ResponseCache → Option ResponseCache
make_room zero c = none
make_room (suc n) c =
    let rest = make_room n (evict_oldest c) in
    if leb c.config.max_size (length c.entries) then rest else some c

unfoldable pub append_entry : String → CachedResponse → ResponseCache → ResponseCache
append_entry key e c = record c { entries = insert key e c.entries; order = c.order ++ key ∷ [] }

pub store : String → CachedResponse → ResponseCache → Option CachedResponse → Option ResponseCache
unfolding append_entry move_to_end
store key e c (some old) = some (move_to_end key (record c { entries = insert key e c.entries }))
store key e c none = elim (make_room (suc (length c.entries)) c) [
  | none ↦ none
  | some c' ↦ some (append_entry key e c')
]

-- What `Put` and `PutWithTTL` share; `none` would be a loop that does not end.
unfoldable pub put_entry :
    ℕ
    → String
    → String
    → String
    → String
    → ℕ
    → ℕ
    → List String
    → ResponseCache
    → Option ResponseCache
unfolding store
put_entry now key model prompt response tokens_used ttl tags c =
    store key
      (record {
        key = key;
        model = model;
        prompt = prompt;
        response = response;
        tokens_used = tokens_used;
        hit_count = 0;
        created_at = now;
        expires_at = now + ttl;
        tags = tags;
      })
      c (lookup key c.entries)

unfoldable pub put :
    ℕ → String → String → String → String → ℕ → List String → ResponseCache → Option ResponseCache
unfolding put_entry
put now key model prompt response tokens_used tags c =
    put_entry now key model prompt response tokens_used c.config.default_ttl tags c

unfoldable pub put_with_ttl :
    ℕ → String → String → String → String → ℕ → ℕ → ResponseCache → Option ResponseCache
unfolding put_entry
put_with_ttl now key model prompt response tokens_used ttl c =
    put_entry now key model prompt response tokens_used ttl [] c

deleted : String → ResponseCache → Option CachedResponse → ResponseCache × Bool
unfolding delete_entry
deleted key c none = (c, false)
deleted key c (some e) = (delete_entry key c, true)

unfoldable pub delete : String → ResponseCache → ResponseCache × Bool
unfolding deleted
delete key c = deleted key c (lookup key c.entries)

-- `Contains` does not touch the order.
unfoldable pub contains : ℕ → String → ResponseCache → Bool
contains now key c = elim (lookup key c.entries) [ none ↦ false | some e ↦ ltb now e.expires_at ]

unfoldable pub size : ResponseCache → ℕ
size c = length c.entries

unfoldable pub clear : ResponseCache → ResponseCache
clear c = record c { entries = []; order = [] }

expired_keys : ℕ → Dict CachedResponse → List String
unfolding expired
expired_keys now [] = []
expired_keys now ((key, e) ∷ d) =
    let rest = expired_keys now d in if expired now e then key ∷ rest else rest

delete_all : List String → ResponseCache → ResponseCache
unfolding delete_entry
delete_all [] c = c
delete_all (key ∷ keys) c = delete_all keys (delete_entry key c)

unfoldable pub purge_expired : ℕ → ResponseCache → ResponseCache × ℕ
unfolding expired_keys delete_all
purge_expired now c = let gone = expired_keys now c.entries in (delete_all gone c, length gone)

live_keys : ℕ → Dict CachedResponse → List String
live_keys now [] = []
live_keys now ((key, e) ∷ d) =
    let rest = live_keys now d in if ltb now e.expires_at then key ∷ rest else rest

unfoldable pub keys : ℕ → ResponseCache → List String
unfolding live_keys
keys now c = live_keys now c.entries
