-- ===== src/Gateway/Provenance/Ring.antt =====
-- The ring keeps the latest records: as long as fewer others come than it holds, a record is found
-- and its signature verifies.
use pre_code.Common.{
  ℕ, suc, ◌≤◌, ◌<◌, ◌≡◌, refl, ap, ◌∙◌, Bool, true, false, Option, none, some, List, [], ◌∷◌, ◌++◌,
  All, String, str_eq, str_eq_refl, ltb, length, length-append, if◌then◌else◌, Dict, lookup, insert,
  erase, lookup-insert, lookup-erase, arith, Bool-cases, inl, inr, is_some,
}
use pre_code.Gateway.Provenance.{
  ProvenanceRecord, ProvenanceStore, Signing, evict, put, get, with_sig, sig_or_none,
  sign_provenance, verify_provenance, record_provenance, verified, verify_stored,
  handle_provenance_verify,
}

-- How many ids stand behind the first `k`; the length of the list where there is none.
unfoldable behind : String → List String → ℕ
behind k [] = 0
behind k (o ∷ os) = let rest = behind k os in if str_eq o k then length os else rest

unfoldable pub listed : String → List String → Bool
listed k [] = false
listed k (o ∷ os) = let rest = listed k os in if str_eq o k then true else rest

listed-append :
    (k o : String) (os : List String) → listed k os ≡ true → listed k (os ++ o ∷ []) ≡ true
unfolding listed
listed-append k o [] h = ground (arith, h)
listed-append k o (x ∷ os) h = ground (arith, listed-append k o os, h)

behind-append :
    (k o : String) (os : List String)
    → listed k os ≡ true
    → behind k (os ++ o ∷ []) ≤ suc (behind k os)
unfolding behind listed
behind-append k o [] h = ground (arith, h)
behind-append k o (x ∷ os) h = ground (arith, behind-append k o os, length-append os (o ∷ []), h)

last-listed : (k : String) (os : List String) → listed k (os ++ k ∷ []) ≡ true
unfolding listed
last-listed k [] = rw (str_eq_refl k) refl
last-listed k (o ∷ os) = ground (arith, last-listed k os)

last-behind : (k : String) (os : List String) → listed k os ≡ false → behind k (os ++ k ∷ []) ≡ 0
unfolding behind listed
last-behind k [] h = rw (str_eq_refl k) refl
last-behind k (o ∷ os) h = ground (arith, last-behind k os, h)

-- Records and signatures, the latest first.
unfoldable pub puts :
    {Time : Type 0}
    → List (ProvenanceRecord Time × String)
    → ProvenanceStore Time
    → ProvenanceStore Time
puts [] p = p
puts (r ∷ rs) p = put r.0 r.1 (puts rs p)

module _ {Time : Type 0} (k : String) (rec : ProvenanceRecord Time) (sig : String) (cap : ℕ) where
  -- The record is kept, with fewer than the capacity behind it, `n` at most.
  Kept : ℕ → ProvenanceStore Time → Type 0
  Kept n p =
      (p.cap ≡ cap)
      × (lookup k p.records ≡ some rec)
      × (lookup k p.sigs ≡ some sig)
      × (listed k p.order ≡ true)
      × (behind k p.order ≤ n)

  evict-Kept :
      (n c : ℕ) (order : List String) (records : Dict (ProvenanceRecord Time)) (sigs : Dict String)
      → c ≡ cap
      → n < cap
      → lookup k records ≡ some rec
      → lookup k sigs ≡ some sig
      → listed k order ≡ true
      → behind k order ≤ n
      → Kept n (evict c order records sigs)
  unfolding Kept evict behind listed
  evict-Kept n c [] records sigs same_cap room h g l b = (same_cap, h, g, l, b)
  evict-Kept n c (o ∷ os) records sigs same_cap room h g l b =
      elim (Bool-cases (ltb c (suc (length os)))) [
        | inr fits ↦ rw (evict, fits) (same_cap, h, g, l, b)
        | inl over ↦
            rw (evict, over)
              (elim (Bool-cases (str_eq o k)) [
                | inl same ↦ absurd (ground (arith, same, over, b, room, same_cap))
                | inr other ↦
                    evict-Kept n c os (erase o records) (erase o sigs) same_cap room
                      (lookup-erase o k records ∙ rw other h) (lookup-erase o k sigs ∙ rw other g)
                      (ground (arith, l, other)) (ground (arith, b, other))
              ])
      ]

  abbrev extended : String → ProvenanceStore Time → List String
  extended id p = if is_some (lookup id p.records) then p.order else p.order ++ id ∷ []

  -- A put of another id.
  put-Kept :
      (n : ℕ) (other : ProvenanceRecord Time) (other_sig : String) (p : ProvenanceStore Time)
      → suc n < cap
      → str_eq other.scan_id k ≡ false
      → Kept n p
      → Kept (suc n) (put other other_sig p)
  unfolding put Kept
  put-Kept n other other_sig p room distinct kept =
      evict-Kept (suc n) p.cap (extended other.scan_id p) (insert other.scan_id other p.records)
        (insert other.scan_id other_sig p.sigs) kept.0 room
        (lookup-insert other.scan_id k other p.records ∙ rw distinct kept.1)
        (lookup-insert other.scan_id k other_sig p.sigs ∙ rw distinct kept.2)
        (elim (Bool-cases (is_some (lookup other.scan_id p.records))) [
          | inl old ↦ rw old kept.3
          | inr new ↦ rw new (listed-append k other.scan_id p.order kept.3)
        ])
        (elim (Bool-cases (is_some (lookup other.scan_id p.records))) [
          | inl old ↦ rw old (omega (arith, kept.4))
          | inr new ↦ rw new (omega (arith, behind-append k other.scan_id p.order kept.3, kept.4))
        ])

  puts-Kept :
      (others : List (ProvenanceRecord Time × String)) (p : ProvenanceStore Time)
      → length others < cap
      → All (λ (r : ProvenanceRecord Time × String). str_eq r.0.scan_id k ≡ false) others
      → Kept 0 p
      → Kept (length others) (puts others p)
  unfolding puts
  puts-Kept [] p room distinct kept = kept
  puts-Kept (r ∷ rs) p room distinct kept =
      put-Kept (length rs) r.0 r.1 (puts rs p) room distinct.0
        (puts-Kept rs p (omega (arith, room)) distinct.1 kept)

module _ {Time : Type 0} (signing : Signing Time) (secret : String) where
  put-new :
      (rec : ProvenanceRecord Time) (sig : String) (p : ProvenanceStore Time)
      → 0 < p.cap
      → lookup rec.scan_id p.records ≡ none
      → listed rec.scan_id p.order ≡ false
      → Kept rec.scan_id rec sig p.cap 0 (put rec sig p)
  unfolding put
  put-new rec sig p room new absent = rw new (
      evict-Kept rec.scan_id rec sig p.cap 0 p.cap (p.order ++ rec.scan_id ∷ [])
        (insert rec.scan_id rec p.records) (insert rec.scan_id sig p.sigs) refl room
        (lookup-insert rec.scan_id rec.scan_id rec p.records ∙ rw (str_eq_refl rec.scan_id) refl)
        (lookup-insert rec.scan_id rec.scan_id sig p.sigs ∙ rw (str_eq_refl rec.scan_id) refl)
        (last-listed rec.scan_id p.order) (omega (arith, last-behind rec.scan_id p.order absent)))

  stored-verified :
      (rec : ProvenanceRecord Time) (signature : String)
      → str_eq secret "" ≡ false
      → str_eq (sig_or_none (sign_provenance signing secret rec)) "" ≡ false
      → verify_stored signing secret
          (some (rec, sig_or_none (sign_provenance signing secret rec)))
          signature
        ≡ verified (str_eq signature (sig_or_none (sign_provenance signing secret rec)))
  unfolding verify_stored verify_provenance sign_provenance sig_or_none
  stored-verified rec signature configured signed = rw signed (rw configured refl)

  -- With a secret, a record under an id that the ring does not know, and then others under other ids,
  -- fewer than the ring holds: by its id, a signature verifies exactly if it is the one that was
  -- returned when the record was made.
  pub recorded-verified :
      (rec : ProvenanceRecord Time) (p : ProvenanceStore Time)
      (others : List (ProvenanceRecord Time × String)) (signature : String)
      → str_eq secret "" ≡ false
      → str_eq (record_provenance signing secret rec p).0 "" ≡ false
      → str_eq rec.scan_id "" ≡ false
      → lookup rec.scan_id p.records ≡ none
      → listed rec.scan_id p.order ≡ false
      → length others < p.cap
      → All (λ (r : ProvenanceRecord Time × String). str_eq r.0.scan_id rec.scan_id ≡ false) others
      → (let made = record_provenance signing secret rec p in
          handle_provenance_verify signing secret rec.scan_id none signature (puts others made.1)
          ≡ verified (str_eq signature made.0))
  unfolding record_provenance handle_provenance_verify get Kept
  recorded-verified rec p others signature configured signed named new absent room distinct =
      let sig = sig_or_none (sign_provenance signing secret rec) in
      let kept =
        puts-Kept rec.scan_id rec sig p.cap others (put rec sig p) room distinct
          (put-new rec sig p (omega (arith, room)) new absent) in
      rw named (
        ap
          (λ (o : Option (ProvenanceRecord Time)).
            verify_stored signing secret
              (with_sig o (lookup rec.scan_id (puts others (put rec sig p)).sigs)) signature)
          kept.1
        ∙ ap (λ (o : Option String). verify_stored signing secret (with_sig (some rec) o) signature)
            kept.2
        ∙ stored-verified rec signature configured signed)
