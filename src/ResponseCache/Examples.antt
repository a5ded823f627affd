-- ===== src/ResponseCache/Examples.antt =====
-- The response cache at concrete operations, and its theorems there.
use pre_code.Common.{ℕ, ◌+◌, ◌≤◌, ◌<◌, ◌≡◌, refl, true, none, some, [], ◌∷◌, String, lookup, arith}
use pre_code.ResponseCache.{ResponseCache, Config, CachedResponse, new, listed, put, get}
use pre_code.ResponseCache.Invariant.{Inv, has}
use pre_code.ResponseCache.Operations.{Op, gets, puts, run_ops, run_ops-Inv}
use pre_code.ResponseCache.Lookup.{put-get}
use pre_code.ResponseCache.Recency.{used_after, run_ops-keeps_recent}

abbrev small : Config
small = record { max_size = 2; default_ttl = 100 }

abbrev puts_at : ℕ → String → Op
puts_at now key = puts now key "m" "p" "r" 7 []

run_ops-Inv_example :
    (c : ResponseCache) × (run_ops
        (puts_at 1 "a" ∷ puts_at 2 "b" ∷ gets 3 "a" ∷ puts_at 4 "c" ∷ [])
        (new small)
      ≡ some c)
    × Inv c
run_ops-Inv_example =
    run_ops-Inv small (puts_at 1 "a" ∷ puts_at 2 "b" ∷ gets 3 "a" ∷ puts_at 4 "c" ∷ [])

abbrev entry : String → CachedResponse
entry k = record {
  key = k;
  model = "m";
  prompt = "p";
  response = "r";
  tokens_used = 7;
  hit_count = 0;
  created_at = 1;
  expires_at = 101;
  tags = [];
}

-- A full cache, `a` used less recently than `b`.
abbrev full : ResponseCache
full = record {
  entries = ("a", entry "a") ∷ ("b", entry "b") ∷ [];
  order = "a" ∷ "b" ∷ [];
  config = small;
  hits = 0;
  misses = 0;
  evictions = 0;
}

full-same_keys : (k : String) → listed k full.order ≡ has k full.entries
unfolding lookup listed
full-same_keys k = ground arith

full-Inv : Inv full
unfolding lookup listed
full-Inv = record {
  dict = (refl, (refl, tt));
  distinct = (refl, (refl, tt));
  same_keys = full-same_keys;
  same_size = refl;
  bounded = omega arith;
  roomy = omega arith;
}

put-get_example :
    (c' : ResponseCache) × (put 5 "c" "m" "p" "r" 7 [] full ≡ some c')
    × (50 ≤ 5 + 100
        → (get 50 "c" c').1
          ≡ some (record {
            key = "c";
            model = "m";
            prompt = "p";
            response = "r";
            tokens_used = 7;
            hit_count = 1;
            created_at = 5;
            expires_at = 5 + 100;
            tags = [];
          }))
    × (5 + 100 < 50 → ((get 50 "c" c').1 ≡ none) × (lookup "c" (get 50 "c" c').0.entries ≡ none))
put-get_example = put-get 5 50 "c" "m" "p" "r" 7 [] full full-Inv

-- `b` was used last, so that it outlives one write.
run_ops-keeps_recent_example :
    (c' : ResponseCache) × (run_ops (puts_at 5 "c" ∷ []) full ≡ some c')
    × (has "b" c'.entries ≡ true)
unfolding used_after lookup
run_ops-keeps_recent_example =
    run_ops-keeps_recent "b" (puts_at 5 "c" ∷ []) full full-Inv refl (omega arith) (tt, tt)
