-- ===== src/Idempotency/Waiting.antt =====
-- What a second request with a key finds while its first one runs, and after it.
use pre_code.Common.{
  ℕ, ◌-◌, ◌+◌, ◌≤◌, ◌<◌, ◌≡◌, refl, sym, ap, subst, ◌∙◌, Bool, true, false, Option, none, some,
  List, [], ◌∷◌, length, leb, str_eq, str_eq_refl, if◌then◌else◌, Bool-cases, eq_iff, arith, inl,
  inr, String, lookup, size-insert, lookup-insert, lt→leb,
}
use mathlib.Core.Bool.{true≢false}
use pre_code.Idempotency.{
  Config, CachedResponse, Store, fresh, fresh_entry, Decision, passes, reserve, arrive, arrive_at,
  finish, make_room, put, waits, replays, runs, ResponseWriter,
}

-- The critical sections of `Middleware`, for the requests of all keys.
pub data Event : Type 0 where
  arrives : ℕ → String → Event
  finishes : ℕ → String → ResponseWriter → List (String × String) → Event

unfoldable pub step : Event → Store → Store
unfolding arrive finish
step (arrives now key) s = (arrive now key s).0
step (finishes now key w headers) s = finish now key w headers s

unfoldable pub steps : List Event → Store → Store
unfolding step
steps [] s = s
steps (e ∷ es) s = steps es (step e s)

-- No event finishes the key, and its arrivals are not after the time.
abbrev pub Leaves : String → ℕ → List Event → Type 0
Leaves key until [] = Unit
Leaves key until (arrives now k ∷ es) = (str_eq k key ≡ true → now ≤ until) × Leaves key until es
Leaves key until (finishes now k w headers ∷ es) = (str_eq k key ≡ false) × Leaves key until es

-- What the requests of other keys leave of a store, with an entry of this key.
Spares : String → CachedResponse → Store → Store → Type 0
Spares key e s s' =
    (lookup key s'.entries ≡ some e)
    × (length s'.entries ≤ length s.entries + 1)
    × (s'.config ≡ s.config)

same-Spares :
    (key : String) (e : CachedResponse) (s : Store)
    → lookup key s.entries ≡ some e
    → Spares key e s s
unfolding Spares
same-Spares key e s l = (l, omega arith, refl)

put-Spares :
    (k key : String) (s : Store) (e e' : CachedResponse)
    → str_eq k key ≡ false
    → lookup key s.entries ≡ some e
    → Spares key e s (put k e' s)
unfolding Spares put
put-Spares k key s e e' h l =
    (rw (lookup-insert k key e' s.entries, h) l, ground (arith, size-insert k e' s.entries), refl)

make_room-roomy : (s : Store) → length s.entries < s.config.max_entries → make_room s ≡ s
unfolding make_room
make_room-roomy s room = rw (lt→leb s.config.max_entries (length s.entries) room) refl

arrive_at-Spares :
    (now : ℕ) (k key : String) (s : Store) (e : CachedResponse) (found : Option CachedResponse)
    → str_eq k key ≡ false
    → length s.entries < s.config.max_entries
    → lookup key s.entries ≡ some e
    → Spares key e s (arrive_at now k s found).0
unfolding arrive_at reserve
arrive_at-Spares now k key s e none h room l =
    rw (make_room-roomy s room) (put-Spares k key s e _ h l)
arrive_at-Spares now k key s e (some e') h room l = same-Spares key e s l

arrive-Spares :
    (now : ℕ) (k key : String) (s : Store) (e : CachedResponse)
    → str_eq k key ≡ false
    → length s.entries < s.config.max_entries
    → lookup key s.entries ≡ some e
    → Spares key e s (arrive now k s).0
unfolding arrive
arrive-Spares now k key s e h room l = elim (Bool-cases (str_eq k "")) [
  | inl empty ↦ rw empty (same-Spares key e s l)
  | inr named ↦
      rw named (arrive_at-Spares now k key s e (fresh_entry now s (lookup k s.entries)) h room l)
]

arrive_same :
    (now : ℕ) (key : String) (s : Store) (e : CachedResponse)
    → str_eq key "" ≡ false
    → lookup key s.entries ≡ some e
    → now ≤ e.created_at + s.config.max_age
    → arrive now key s ≡ (s, if e.processing then waits else replays e)
unfolding arrive fresh_entry fresh arrive_at
arrive_same now key s e h l u =
    let f : leb (now - e.created_at) s.config.max_age ≡ true = ground arith in rw (h, l, f) refl

event-Spares :
    (key : String) (s : Store) (e : CachedResponse) (until : ℕ) (ev : Event) (es : List Event)
    → str_eq key "" ≡ false
    → Leaves key until (ev ∷ es)
    → until ≤ e.created_at + s.config.max_age
    → length s.entries < s.config.max_entries
    → lookup key s.entries ≡ some e
    → Spares key e s (step ev s)
unfolding step finish
event-Spares key s e until (arrives now k) es n leaves u room l = elim (Bool-cases (str_eq k key)) [
  | inl same ↦
      subst (λ (k' : String). Spares key e s (arrive now k' s).0) (sym ((eq_iff k key).0 same))
        (rw (arrive_same now key s e n l (ground (arith, leaves.0 same, u)))
          (same-Spares key e s l))
  | inr other ↦ arrive-Spares now k key s e other room l
]
event-Spares key s e until (finishes now k w headers) es n leaves u room l =
    put-Spares k key s e _ leaves.0 l

Leaves-tail :
    (key : String) (until : ℕ) (ev : Event) (es : List Event)
    → Leaves key until (ev ∷ es)
    → Leaves key until es
Leaves-tail key until (arrives now k) es h = h.1
Leaves-tail key until (finishes now k w headers) es h = h.1

steps-keep :
    (key : String) (es : List Event) (s : Store) (e : CachedResponse) (until : ℕ)
    → str_eq key "" ≡ false
    → Leaves key until es
    → until ≤ e.created_at + s.config.max_age
    → length s.entries + length es ≤ s.config.max_entries
    → lookup key s.entries ≡ some e
    → (lookup key (steps es s).entries ≡ some e) × ((steps es s).config ≡ s.config)
unfolding steps Spares
steps-keep key [] s e until n leaves u room l = (l, refl)
steps-keep key (ev ∷ es) s e until n leaves u room l =
    let s' = step ev s in
    let (l', size, cfg) : Spares key e s s' =
      event-Spares key s e until ev es n leaves u (omega arith) l in
    let age : s'.config.max_age ≡ s.config.max_age = ap (λ (c : Config). c.max_age) cfg in
    let most : s'.config.max_entries ≡ s.config.max_entries =
      ap (λ (c : Config). c.max_entries) cfg in
    let (l'', cfg') =
      steps-keep key es s' e until n (Leaves-tail key until ev es leaves) (omega (arith, age))
        (omega (arith, most, size)) l' in
    (l'', cfg' ∙ cfg)

put-lookup :
    (key : String) (e : CachedResponse) (s : Store) → lookup key (put key e s).entries ≡ some e
unfolding put
put-lookup key e s = rw (lookup-insert key key e s.entries, str_eq_refl key) refl

answers :
    (t now : ℕ) (key : String) (e : CachedResponse) (s : Store) (es : List Event)
    → str_eq key "" ≡ false
    → e.created_at ≡ t
    → lookup key s.entries ≡ some e
    → length s.entries + length es ≤ s.config.max_entries
    → Leaves key (t + s.config.max_age) es
    → now ≤ t + s.config.max_age
    → arrive now key (steps es s) ≡ (steps es s, if e.processing then waits else replays e)
answers t now key e s es n c l room leaves u =
    let (l', cfg) =
      steps-keep key es s e (t + s.config.max_age) n leaves (omega (arith, c)) room l in
    let age : (steps es s).config.max_age ≡ s.config.max_age = ap (λ (g : Config). g.max_age) cfg in
    arrive_same now key (steps es s) e n l' (omega (arith, c, age))

is_runs : Decision → Bool
is_runs passes = false
is_runs waits = false
is_runs (replays e) = false
is_runs runs = true

answer-runs : (p : Bool) (e : CachedResponse) → is_runs (if p then waits else replays e) ≡ false
unfolding is_runs
answer-runs true e = refl
answer-runs false e = refl

arrive_at-runs :
    (t : ℕ) (key : String) (s : Store) (found : Option CachedResponse)
    → is_runs (arrive_at t key s found).1 ≡ true
    → (arrive_at t key s found).0 ≡ reserve t key s
unfolding arrive_at is_runs
arrive_at-runs t key s none h = refl
arrive_at-runs t key s (some e) h = elim (true≢false (sym h ∙ answer-runs e.processing e)) [ ]

arrive-runs :
    (t : ℕ) (key : String) (s : Store)
    → str_eq key "" ≡ false
    → (arrive t key s).1 ≡ runs
    → (arrive t key s).0 ≡ reserve t key s
unfolding arrive is_runs
arrive-runs t key s n h =
    let e : arrive t key s ≡ arrive_at t key s (fresh_entry t s (lookup key s.entries)) =
      rw n refl in
    let r : is_runs (arrive t key s).1 ≡ true = ap (λ (d : Decision). is_runs d) h in
    ap (λ (p : Store × Decision). p.0) e
    ∙ arrive_at-runs t key s (fresh_entry t s (lookup key s.entries))
        (subst (λ (p : Store × Decision). is_runs p.1 ≡ true) e r)

-- In a store with room for one entry more than there are events: a key that a request has reserved
-- at a time stays reserved through events that do not finish it, so that a request that arrives with
-- this key within the maximum age waits, and no second handler runs.
pub arrive-waits :
    (t now : ℕ) (key : String) (s : Store) (es : List Event)
    → str_eq key "" ≡ false
    → length s.entries + length es < s.config.max_entries
    → (arrive t key s).1 ≡ runs
    → Leaves key (t + s.config.max_age) es
    → now ≤ t + s.config.max_age
    → let s' = steps es (arrive t key s).0 in arrive now key s' ≡ (s', waits)
unfolding reserve put
arrive-waits t now key s es n room r leaves u =
    let e : CachedResponse = record {
      status_code = 0;
      body = [];
      headers = [];
      created_at = t;
      processing = true;
    } in
    let reserved : (arrive t key s).0 ≡ put key e s =
      arrive-runs t key s n r
      ∙ ap (λ (s₀ : Store). put key e s₀) (make_room-roomy s (omega arith)) in
    subst (λ (s₀ : Store). arrive now key (steps es s₀) ≡ (steps es s₀, waits)) (sym reserved)
      (answers t now key e (put key e s) es n refl (put-lookup key e s)
        (ground (arith, size-insert key e s.entries)) leaves u)

-- In a store with room for one entry more than there are events: after a handler's response has been
-- stored for a key and through events that do not finish the key again, a request that arrives with
-- this key within the maximum age is answered with this very response, and no handler runs.
pub arrive-replays :
    (t now : ℕ) (key : String) (w : ResponseWriter) (headers : List (String × String)) (s : Store)
    (es : List Event)
    → str_eq key "" ≡ false
    → length s.entries + length es < s.config.max_entries
    → Leaves key (t + s.config.max_age) es
    → now ≤ t + s.config.max_age
    → let s' = steps es (finish t key w headers s) in
      arrive now key s' ≡ (
        s',
        replays (record {
          status_code = w.status_code;
          body = w.body;
          headers = headers;
          created_at = t;
          processing = false;
        }),
      )
unfolding finish put
arrive-replays t now key w headers s es n room leaves u =
    let e : CachedResponse = record {
      status_code = w.status_code;
      body = w.body;
      headers = headers;
      created_at = t;
      processing = false;
    } in
    answers t now key e (put key e s) es n refl (put-lookup key e s)
      (ground (arith, size-insert key e s.entries)) leaves u
