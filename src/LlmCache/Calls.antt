-- ===== src/LlmCache/Calls.antt =====
-- What the cache answers, and what its counters count.
use pre_code.Common.{
  ℕ, suc, ◌+◌, ◌≤◌, ◌<◌, ◌≡◌, refl, ◌∙◌, inl, inr, Bool, true, false, Option, none, some, List, [],
  ◌∷◌, String, lookup, lookup-insert, lookup-erase, str_eq, str_eq_refl, count_if, ltb, ltb→lt,
  lt→ltb, subst, ap, le→ltb, arith, Bool-cases, eq_iff,
}
use pre_code.LlmCache.{
  ChatResponse, CacheEntry, InMemoryCache, new_in_memory_cache, get, set, looked_up, stats,
}

pub data Call : Type 0 where
  gets : ℕ → String → Call
  sets : ℕ → String → Option ChatResponse → Call

unfoldable pub step : Call → InMemoryCache → InMemoryCache
step (gets now key) c = (get now key c).0
step (sets now key resp) c = set now key resp c

unfoldable pub calls : List Call → InMemoryCache → InMemoryCache
calls [] c = c
calls (o ∷ os) c = calls os (step o c)

abbrev pub is_get : Call → Bool
is_get (gets now key) = true
is_get (sets now key resp) = false

-- Calls for other keys, or reads of this key up to the time.
abbrev pub Keeps : String → ℕ → List Call → Type 0
Keeps key until [] = Unit
Keeps key until (gets now k ∷ os) = (str_eq k key ≡ true → now ≤ until) × Keeps key until os
Keeps key until (sets now k resp ∷ os) = (str_eq k key ≡ false) × Keeps key until os

expiry : Option CacheEntry → ℕ
expiry none = 0
expiry (some e) = e.expires_at

expired_other :
    (now : ℕ) (k key : String) (c : InMemoryCache) (e e' : CacheEntry)
    → some e' ≡ lookup k c.entries
    → lookup key c.entries ≡ some e
    → (str_eq k key ≡ true → now ≤ e.expires_at)
    → e'.expires_at < now
    → str_eq k key ≡ false
unfolding expiry
expired_other now k key c e e' q h u over = elim (Bool-cases (str_eq k key)) [
  | inr other ↦ other
  | inl same ↦
      (let at_key : some e' ≡ lookup key c.entries =
          subst (λ (j : String). some e' ≡ lookup j c.entries) ((eq_iff k key).0 same) q in
        let times : e'.expires_at ≡ e.expires_at =
          ap (λ (o : Option CacheEntry). expiry o) (at_key ∙ h) in
        absurd (omega (arith, times, u same, over)))
]

looked_up-keeps :
    (now : ℕ) (k key : String) (c : InMemoryCache) (e : CacheEntry) (o : Option CacheEntry)
    → o ≡ lookup k c.entries
    → lookup key c.entries ≡ some e
    → (str_eq k key ≡ true → now ≤ e.expires_at)
    → lookup key (looked_up now k c o).0.entries ≡ some e
unfolding looked_up
looked_up-keeps now k key c e none q h u = h
looked_up-keeps now k key c e (some e') q h u = elim (Bool-cases (ltb e'.expires_at now)) [
  | inl over ↦
      rw
        (
          over,
          lookup-erase k key c.entries,
          expired_other now k key c e e' q h u (ltb→lt e'.expires_at now over),
        )
        h
  | inr not_yet ↦ rw not_yet h
]

looked_up-counts :
    (now : ℕ) (k : String) (c : InMemoryCache) (o : Option CacheEntry)
    → let c' = (looked_up now k c o).0 in c'.hits + c'.misses ≡ suc (c.hits + c.misses)
unfolding looked_up
looked_up-counts now k c none = omega arith
looked_up-counts now k c (some e) = ground arith

set-counts :
    (now : ℕ) (k : String) (resp : Option ChatResponse) (c : InMemoryCache)
    → let c' = set now k resp c in c'.hits + c'.misses ≡ c.hits + c.misses
unfolding set
set-counts now k none c = refl
set-counts now k (some resp) c = refl

calls-counts_from :
    (os : List Call) (c : InMemoryCache)
    → let (hits, misses) = stats (calls os c) in
      hits + misses ≡ count_if is_get os + (c.hits + c.misses)
unfolding calls step stats get
calls-counts_from [] c = omega arith
calls-counts_from (gets now k ∷ os) c =
    omega
      (arith, calls-counts_from os (get now k c).0, looked_up-counts now k c (lookup k c.entries))
calls-counts_from (sets now k resp ∷ os) c =
    omega (arith, calls-counts_from os (set now k resp c), set-counts now k resp c)

-- After any calls of a new cache, the hits and the misses together are the calls of `Get`.
pub calls-stats :
    (ttl : ℕ) (os : List Call)
    → let (hits, misses) = stats (calls os (new_in_memory_cache ttl)) in
      hits + misses ≡ count_if is_get os
unfolding new_in_memory_cache stats
calls-stats ttl os = omega (arith, calls-counts_from os (new_in_memory_cache ttl))

calls-keep :
    (key : String) (os : List Call) (c : InMemoryCache) (e : CacheEntry)
    → Keeps key e.expires_at os
    → lookup key c.entries ≡ some e
    → lookup key (calls os c).entries ≡ some e
unfolding calls step get set
calls-keep key [] c e k h = h
calls-keep key (gets now j ∷ os) c e k h =
    calls-keep key os (get now j c).0 e k.1
      (looked_up-keeps now j key c e (lookup j c.entries) refl h k.0)
calls-keep key (sets now j none ∷ os) c e k h = calls-keep key os c e k.1 h
calls-keep key (sets now j (some resp) ∷ os) c e k h =
    calls-keep key os (set now j (some resp) c) e k.1
      (rw (lookup-insert j key (record { resp = resp; expires_at = now + c.ttl }) c.entries, k.0) h)

-- A stored response is found again, at no cost and no latency and else as it was, through any calls
-- that write other keys and that read this key no later than its time to live, up to the end of this
-- time; after that the next `Get` finds nothing.
pub set-get :
    (t now : ℕ) (key : String) (resp : ChatResponse) (os : List Call) (c : InMemoryCache)
    → Keeps key (t + c.ttl) os
    → let c' = calls os (set t key (some resp) c) in
      (now ≤ t + c.ttl → (get now key c').1 ≡ some (record resp { cost = 0; latency = 0 }))
      × (t + c.ttl < now → (get now key c').1 ≡ none)
unfolding get looked_up set
set-get t now key resp os c k =
    let e : CacheEntry = record { resp = resp; expires_at = t + c.ttl } in
    let s = set t key (some resp) c in
    let stored : lookup key s.entries ≡ some e =
      rw (lookup-insert key key e c.entries, str_eq_refl key) refl in
    let found : lookup key (calls os s).entries ≡ some e = calls-keep key os s e k stored in
    (λ h. rw (found, le→ltb (t + c.ttl) now h) refl, λ h. rw (found, lt→ltb (t + c.ttl) now h) refl)

looked_up-ttl :
    (now : ℕ) (key : String) (c : InMemoryCache) (o : Option CacheEntry)
    → (looked_up now key c o).0.ttl ≡ c.ttl
unfolding looked_up
looked_up-ttl now key c none = refl
looked_up-ttl now key c (some e) = ground arith

pub get-ttl : (now : ℕ) (key : String) (c : InMemoryCache) → (get now key c).0.ttl ≡ c.ttl
unfolding get
get-ttl now key c = looked_up-ttl now key c (lookup key c.entries)
