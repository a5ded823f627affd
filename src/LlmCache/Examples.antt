-- ===== src/LlmCache/Examples.antt =====
-- The exact-match cache at concrete calls, and its theorems there.
use pre_code.Common.{◌+◌, ◌≤◌, ◌<◌, ◌≡◌, refl, none, some, List, [], ◌∷◌, arith}
use pre_code.LlmCache.{ChatResponse, InMemoryCache, get, set}
use pre_code.LlmCache.Calls.{Call, gets, sets, calls, set-get}

abbrev reply : ChatResponse
reply = record {
  content = "hello";
  input_tokens = 10;
  output_tokens = 5;
  cost = 3;
  latency = 900;
  model = "m";
  provider = "p";
  stop_reason = "stop";
}

abbrev some_calls : List Call
some_calls = gets 20 "a" ∷ sets 30 "b" (some reply) ∷ gets 40 "c" ∷ []

abbrev cache : InMemoryCache
cache = record { ttl = 100; entries = []; hits = 0; misses = 0 }

set-get_example :
    let c' = calls some_calls (set 10 "a" (some reply) cache) in
    (50 ≤ 10 + 100 → (get 50 "a" c').1 ≡ some (record reply { cost = 0; latency = 0 }))
    × (10 + 100 < 50 → (get 50 "a" c').1 ≡ none)
set-get_example =
    set-get 10 50 "a" reply some_calls cache (λ e. omega arith, (refl, (λ e. omega arith, tt)))
