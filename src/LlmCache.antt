-- ===== src/LlmCache.antt =====
-- The exact-match cache in front of the LLM router (internal/llm/cache.go). The mutex makes each
-- method one step; times and durations are nanoseconds. `CacheKey`, a SHA-256 of the request, is
-- left out: the methods take the key. A cost is in the unit of the provider, and only set to 0; tool calls
-- are left out of a response.
pub mod Calls
mod Examples
use pre_code.Common.{
  ℕ, ◌+◌, Option, none, some, [], String, Dict, lookup, insert, erase, ltb, if◌then◌else◌,
}

pub record ChatResponse : Type 0 where
  pub content : String
  pub input_tokens : ℕ
  pub output_tokens : ℕ
  pub cost : ℕ
  pub latency : ℕ
  pub model : String
  pub provider : String
  pub stop_reason : String

pub record CacheEntry : Type 0 where
  pub resp : ChatResponse
  pub expires_at : ℕ

pub record InMemoryCache : Type 0 where
  pub ttl : ℕ
  pub entries : Dict CacheEntry
  pub hits : ℕ
  pub misses : ℕ

unfoldable pub new_in_memory_cache : ℕ → InMemoryCache
new_in_memory_cache ttl = record { ttl = ttl; entries = []; hits = 0; misses = 0 }

looked_up : ℕ → String → InMemoryCache → Option CacheEntry → InMemoryCache × Option ChatResponse
looked_up now key c none = (record c { misses = c.misses + 1 }, none)
looked_up now key c (some e) =
    if ltb e.expires_at now
    then (record c { entries = erase key c.entries; misses = c.misses + 1 }, none)
    else (record c { hits = c.hits + 1 }, some (record (e.resp) { cost = 0; latency = 0 }))

unfoldable pub get : ℕ → String → InMemoryCache → InMemoryCache × Option ChatResponse
unfolding looked_up
get now key c = looked_up now key c (lookup key c.entries)

-- A nil response is not stored.
unfoldable pub set : ℕ → String → Option ChatResponse → InMemoryCache → InMemoryCache
set now key none c = c
set now key (some resp) c = record c {
  entries = insert key (record { resp = resp; expires_at = now + c.ttl }) c.entries;
}

unfoldable pub stats : InMemoryCache → ℕ × ℕ
stats c = (c.hits, c.misses)
