-- ===== src/RateLimit/Sliding.antt =====
-- The sliding window admits no more than its limit in any window, and refuses no other call.
use pre_code.Common.{
  ℕ, ◌+◌, ◌≤◌, ◌<◌, ◌≡◌, refl, sym, ◌∙◌, Bool, ◌&&◌, List, [], ◌∷◌, ◌++◌, keep, count_if,
  count_if-append, count_if-le-length, length-keep, length, length-append, ltb, leb, if◌then◌else◌,
  arith, Bool-cases, inl, inr, All, dec_le, subst,
}
use pre_code.RateLimit.{slide}

-- Calls at these times, earliest first; the time stamps in the bucket, and the times at which a
-- call was admitted, newest first.
unfoldable pub slides : ℕ → ℕ → List ℕ → List ℕ × List ℕ → List ℕ × List ℕ
slides limit window [] s = s
slides limit window (now ∷ ts) (requests, admitted) =
    let (requests', allowed) = slide limit window now requests in
    slides limit window ts (requests', if allowed then now ∷ admitted else admitted)

-- The clock does not go back.
abbrev pub IsClock : ℕ → List ℕ → Type 0
IsClock last [] = Unit
IsClock last (t ∷ ts) = (last ≤ t) × IsClock t ts

abbrev pub latest : ℕ → List ℕ → ℕ
latest last [] = last
latest last (t ∷ ts) = latest t ts

-- `t` lies in the window that ends at `x`.
abbrev pub within : ℕ → ℕ → ℕ → Bool
within window x t = leb t x && ltb x (t + window)

abbrev live : ℕ → ℕ → ℕ → Bool
live window x t = ltb x (t + window)

count_if-keep :
    (window now x : ℕ) (ts : List ℕ)
    → now ≤ x
    → count_if (live window x) (keep (live window now) ts) ≡ count_if (live window x) ts
count_if-keep window now x [] l = refl
count_if-keep window now x (t ∷ ts) l = ground (arith, count_if-keep window now x ts l)

within-live :
    (window x last : ℕ) (ts : List ℕ)
    → last ≤ x
    → All (λ t. t ≤ last) ts
    → count_if (within window x) ts ≡ count_if (live window x) ts
within-live window x last [] l h = refl
within-live window x last (t ∷ ts) l h = ground (arith, within-live window x last ts l h.1)

All-later :
    (last now : ℕ) (ts : List ℕ) → last ≤ now → All (λ t. t ≤ last) ts → All (λ t. t ≤ now) ts
All-later last now [] l h = tt
All-later last now (t ∷ ts) l h = (omega arith, All-later last now ts l h.1)

module _ (limit window : ℕ) where
  record Inv (last : ℕ) (s : List ℕ × List ℕ) : Type 0 where
    same : (x : ℕ) → last ≤ x → count_if (live window x) s.1 ≡ count_if (live window x) s.0
    small : length s.0 ≤ limit
    past : All (λ t. t ≤ last) s.1
    capped : (x : ℕ) → count_if (within window x) s.1 ≤ limit

  abbrev valid : ℕ → List ℕ → List ℕ
  valid now requests = keep (live window now) requests

  length-valid-le : (now : ℕ) (requests : List ℕ) → length (valid now requests) ≤ length requests
  length-valid-le now requests =
      omega (
        arith,
        length-keep (live window now) requests,
        count_if-le-length (live window now) requests,
      )

  denied-Inv :
      (last now : ℕ) (requests admitted : List ℕ)
      → last ≤ now
      → Inv last (requests, admitted)
      → Inv now (valid now requests, admitted)
  denied-Inv last now requests admitted l h = record {
    same = λ x m. h.same x (omega arith) ∙ sym (count_if-keep window now x requests m);
    small = omega (arith, length-valid-le now requests, h.small);
    past = All-later last now admitted l h.past;
    capped = h.capped;
  }

  admitted-Inv :
      (last now : ℕ) (requests admitted : List ℕ)
      → last ≤ now
      → Inv last (requests, admitted)
      → length (valid now requests) < limit
      → Inv now (valid now requests ++ now ∷ [], now ∷ admitted)
  admitted-Inv last now requests admitted l h room = record {
    same = same;
    small = omega (arith, length-append (valid now requests) (now ∷ []));
    past = past;
    capped = λ x. elim (dec_le now x) [
      | yes m ↦ omega (
        arith,
        within-live window x now (now ∷ admitted) m past,
        same x m,
        count_if-le-length (live window x) (valid now requests ++ now ∷ []),
        length-append (valid now requests) (now ∷ []),
      )
      | no m ↦ ground (arith, h.capped x)
    ];
  }
    where
      past : All (λ t. t ≤ now) (now ∷ admitted)
      past = (omega arith, All-later last now admitted l h.past)

      same :
          (x : ℕ)
          → now ≤ x
          → count_if (live window x) (now ∷ admitted)
            ≡ count_if (live window x) (valid now requests ++ now ∷ [])
      same x m = ground (
        arith,
        h.same x (omega arith),
        count_if-keep window now x requests m,
        count_if-append (live window x) (valid now requests) (now ∷ []),
      )

  slides-Inv :
      (last : ℕ) (ts requests admitted : List ℕ)
      → IsClock last ts
      → Inv last (requests, admitted)
      → Inv (latest last ts) (slides limit window ts (requests, admitted))
  unfolding slides slide
  slides-Inv last [] requests admitted c h = h
  slides-Inv last (now ∷ ts) requests admitted c h =
      elim (Bool-cases (leb limit (length (valid now requests)))) [
        | inl full ↦
            let e : slides limit window (now ∷ ts) (requests, admitted)
                ≡ slides limit window ts (valid now requests, admitted) =
              rw full refl in
            subst (Inv (latest now ts)) (sym e) (
              slides-Inv now ts (valid now requests) admitted c.1
                (denied-Inv last now requests admitted c.0 h))
        | inr free ↦
            let e : slides limit window (now ∷ ts) (requests, admitted)
                ≡ slides limit window ts (valid now requests ++ now ∷ [], now ∷ admitted) =
              rw free refl in
            subst (Inv (latest now ts)) (sym e) (
              slides-Inv now ts (valid now requests ++ now ∷ []) (now ∷ admitted) c.1
                (admitted-Inv last now requests admitted c.0 h (ground arith)))
      ]

  new-Inv : Inv 0 ([], [])
  new-Inv = record { same = λ x l. refl; small = omega arith; past = tt; capped = λ x. omega arith }

  -- A new bucket, called at any times of a clock that does not go back: in every window, wherever
  -- it ends, at most `limit` calls are admitted.
  pub slides_capped :
      (ts : List ℕ) (x : ℕ)
      → IsClock 0 ts
      → count_if (within window x) (slides limit window ts ([], [])).1 ≤ limit
  slides_capped ts x c = (slides-Inv 0 ts [] [] c new-Inv).capped x

  -- After any such calls, one more, not earlier than they, is admitted exactly when fewer than
  -- `limit` of the calls that were admitted lie in the window that ends with it.
  pub slide_exact :
      (ts : List ℕ) (now : ℕ)
      → IsClock 0 ts
      → latest 0 ts ≤ now
      → let (requests, admitted) = slides limit window ts ([], []) in
        (slide limit window now requests).1 ≡ ltb (count_if (within window now) admitted) limit
  unfolding slide
  slide_exact ts now c l =
      let s = slides limit window ts ([], []) in
      let h = slides-Inv 0 ts [] [] c new-Inv in
      ground (
        arith,
        length-keep (live window now) s.0,
        h.same now l,
        within-live window now (latest 0 ts) s.1 l h.past,
      )
