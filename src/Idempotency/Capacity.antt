-- ===== src/Idempotency/Capacity.antt =====
-- The store never grows past its capacity by the requests that arrive.
use pre_code.Common.{
  ℕ, ◌≤◌, ◌<◌, ◌≡◌, refl, ap, Bool, true, false, Option, none, some, [], ◌∷◌, length, ltb, leb,
  str_eq, str_eq_refl, if◌then◌else◌, Bool-cases, arith, inl, inr, String, Dict, IsDict, lookup,
  size-insert, size-erase, erase-IsDict, insert-IsDict, lookup-insert, lookup-erase, ◌⊎◌,
}
use pre_code.Idempotency.{
  CachedResponse, Store, Config, reservation, oldest, evict_oldest, make_room, reserve, put, arrive,
  arrive_at, fresh_entry,
}

has : Option CachedResponse → Bool
has none = false
has (some e) = true

-- What the loop of `evictOldest` ends with, once it has a key.
Names : Dict CachedResponse → String → String → Type 0
Names d key o = (str_eq o "" ≡ false) × ((o ≡ key) ⊎ (has (lookup o d) ≡ true))

has-next :
    (d : Dict CachedResponse) (i o : String) (e : CachedResponse)
    → has (lookup o d) ≡ true
    → has (lookup o ((i, e) ∷ d)) ≡ true
unfolding lookup has
has-next d i o e h = elim (Bool-cases (str_eq i o)) [ inl is ↦ rw is refl | inr other ↦ rw other h ]

has-head :
    (d : Dict CachedResponse) (i o : String) (e : CachedResponse)
    → Names d i o
    → has (lookup o ((i, e) ∷ d)) ≡ true
unfolding Names lookup has
has-head d i o e (n, inl same) = rw (same, str_eq_refl i) refl
has-head d i o e (n, inr in_d) = has-next d i o e in_d

Names-next :
    (d : Dict CachedResponse) (i key o : String) (e : CachedResponse)
    → Names d key o
    → Names ((i, e) ∷ d) key o
unfolding Names
Names-next d i key o e (n, inl same) = (n, inl same)
Names-next d i key o e (n, inr in_d) = (n, inr (has-next d i o e in_d))

oldest-next :
    (d : Dict CachedResponse) (i key : String) (e : CachedResponse) (time : ℕ) (older : Bool)
    → str_eq key "" ≡ false
    → ltb e.created_at time ≡ older
    → oldest ((i, e) ∷ d) key time
      ≡ oldest d (if older then i else key) (if older then e.created_at else time)
unfolding oldest
oldest-next d i key e time older n l = rw (oldest, n, l) refl

keyless-tail :
    (d : Dict CachedResponse) (i : String) (e : CachedResponse)
    → lookup "" ((i, e) ∷ d) ≡ none
    → (str_eq i "" ≡ false) × (lookup "" d ≡ none)
unfolding lookup
keyless-tail d i e h = ground (arith, h)

oldest-Names :
    (d : Dict CachedResponse) (key : String) (time : ℕ)
    → lookup "" d ≡ none
    → str_eq key "" ≡ false
    → Names d key (oldest d key time).0
unfolding oldest Names
oldest-Names [] key time h n = (n, inl refl)
oldest-Names ((i, e) ∷ d) key time h n =
    let (n', h') = keyless-tail d i e h in
    elim (Bool-cases (ltb e.created_at time)) [
      | inl older ↦
          rw (oldest-next d i key e time true n older)
            (let t = oldest-Names d i e.created_at h' n' in (t.0, inr (has-head d i _ e t)))
      | inr newer ↦
          rw (oldest-next d i key e time false n newer)
            (Names-next d i key _ e (oldest-Names d key time h' n))
    ]

-- The entry that is evicted is there.
oldest-has :
    (d : Dict CachedResponse)
    → 0 < length d
    → lookup "" d ≡ none
    → (str_eq (oldest d "" 0).0 "" ≡ false) × (has (lookup (oldest d "" 0).0 d) ≡ true)
unfolding Names oldest
oldest-has [] pos h = elim pos [ ]
oldest-has ((i, e) ∷ d) pos h =
    let (n', h') = keyless-tail d i e h in
    let t = oldest-Names d i e.created_at h' n' in
    (t.0, has-head d i (oldest d i e.created_at).0 e t)

-- A store whose keys are in it once each and not empty, and that is within its capacity.
abbrev pub Fits : Store → Type 0
Fits s = IsDict s.entries × (lookup "" s.entries ≡ none) × (length s.entries ≤ s.config.max_entries)

-- The same with a place left, for a store that keeps its configuration.
HasRoom : Store → Store → Type 0
HasRoom s s' =
    IsDict s'.entries
    × (lookup "" s'.entries ≡ none)
    × (length s'.entries < s.config.max_entries)
    × (s'.config ≡ s.config)

evict_oldest-HasRoom :
    (s : Store)
    → 0 < s.config.max_entries
    → Fits s
    → s.config.max_entries ≤ length s.entries
    → HasRoom s (evict_oldest s)
unfolding evict_oldest HasRoom has
evict_oldest-HasRoom s pos (dict, keyed, fits) full =
    let key = (oldest s.entries "" 0).0 in
    let (n, there) = oldest-has s.entries (omega arith) keyed in
    rw n (
      erase-IsDict key s.entries dict,
      rw (lookup-erase key "" s.entries, n) keyed,
      ground (arith, there, fits, pos, size-erase key s.entries dict),
      refl,
    )

make_room-HasRoom : (s : Store) → 0 < s.config.max_entries → Fits s → HasRoom s (make_room s)
unfolding make_room HasRoom
make_room-HasRoom s pos (dict, keyed, fits) =
    elim (Bool-cases (leb s.config.max_entries (length s.entries))) [
      | inl full ↦ rw full (evict_oldest-HasRoom s pos (dict, keyed, fits) (ground (arith, full)))
      | inr roomy ↦ rw roomy (dict, keyed, ground (arith, roomy), refl)
    ]

reserve-Fits :
    (now : ℕ) (key : String) (s : Store)
    → 0 < s.config.max_entries
    → Fits s
    → str_eq key "" ≡ false
    → Fits (reserve now key s)
unfolding reserve put HasRoom
reserve-Fits now key s pos fits n =
    let s' = make_room s in
    let (dict, keyed, room, cfg) = make_room-HasRoom s pos fits in
    let most : s'.config.max_entries ≡ s.config.max_entries =
      ap (λ (c : Config). c.max_entries) cfg in
    (
      insert-IsDict key _ s'.entries dict,
      rw (lookup-insert key "" (reservation now) s'.entries, n) keyed,
      ground (arith, most, size-insert key (reservation now) s'.entries),
    )

arrive_at-Fits :
    (now : ℕ) (key : String) (s : Store) (found : Option CachedResponse)
    → 0 < s.config.max_entries
    → Fits s
    → str_eq key "" ≡ false
    → Fits (arrive_at now key s found).0
unfolding arrive_at
arrive_at-Fits now key s none pos fits n = reserve-Fits now key s pos fits n
arrive_at-Fits now key s (some e) pos fits n = fits

-- In a store with a positive capacity that it is within, and whose keys are in it once each and not
-- empty, a request that arrives leaves all this so, whether it evicts an entry or not.
pub arrive-Fits :
    (now : ℕ) (key : String) (s : Store)
    → 0 < s.config.max_entries
    → Fits s
    → Fits (arrive now key s).0
unfolding arrive
arrive-Fits now key s pos fits = elim (Bool-cases (str_eq key "")) [
  | inl empty ↦ rw empty fits
  | inr named ↦
      rw named (arrive_at-Fits now key s (fresh_entry now s (lookup key s.entries)) pos fits named)
]
