-- ===== src/Gateway/Gate/Scans.antt =====
-- How the gate scans: prose, fenced code, and texts in parts.
use pre_code.Common.{
  ℕ, suc, ◌≤◌, length, ◌≡◌, refl, ap, ◌∙◌, Bool, true, false, List, [], ◌∷◌, ◌++◌, ◌==◌, ltb, All,
  arith, append_assoc, append-nil, Bool-cases, inl, inr,
}
use pre_code.Gateway.{Text}
use pre_code.Gateway.Gate.{Scan, fence, scan, scan_byte, toggled, written, is_triple_backtick_at}

-- No byte is a backtick.
abbrev pub IsPlain : Text → Type 0
IsPlain = All (λ (x : ℕ). x == 96 ≡ false)

-- A scan between two bytes that it reads.
abbrev pub at : Bool → Text → List Text → Text → Scan
at c buf held out = record { in_code = c; buf = buf; held_code = held; out = out; skip = 0 }

pub scan-open :
    (rest buf : Text) (held : List Text) (out : Text)
    → scan (fence ++ rest) (at false buf held out) ≡ scan rest (at true (buf ++ fence) held out)
unfolding scan scan_byte toggled is_triple_backtick_at
scan-open rest buf held out = refl

pub scan-close :
    (rest buf : Text) (held : List Text) (out : Text)
    → scan (fence ++ rest) (at true buf held out)
      ≡ scan rest (at false [] (held ++ (buf ++ fence) ∷ []) out)
unfolding scan scan_byte toggled is_triple_backtick_at
scan-close rest buf held out = refl

no_fence : (x : ℕ) (xs : Text) → x == 96 ≡ false → is_triple_backtick_at (x ∷ xs) ≡ false
unfolding is_triple_backtick_at
no_fence x [] h = refl
no_fence x (y ∷ []) h = refl
no_fence x (y ∷ z ∷ xs) h = rw h refl

byte-prose :
    (x : ℕ) (xs buf : Text) (held : List Text) (out : Text)
    → x == 96 ≡ false
    → scan_byte x xs (at false buf held out) ≡ at false buf held (out ++ x ∷ [])
unfolding scan_byte written
byte-prose x xs buf held out h = rw (no_fence x xs h) refl

byte-code :
    (x : ℕ) (xs buf : Text) (held : List Text) (out : Text)
    → x == 96 ≡ false
    → scan_byte x xs (at true buf held out) ≡ at true (buf ++ x ∷ []) held out
unfolding scan_byte written
byte-code x xs buf held out h = rw (no_fence x xs h) refl

pub scan-prose :
    (t rest buf : Text) (held : List Text) (out : Text)
    → IsPlain t
    → scan (t ++ rest) (at false buf held out) ≡ scan rest (at false buf held (out ++ t))
unfolding scan
scan-prose [] rest buf held out h = rw (append-nil out) refl
scan-prose (x ∷ t) rest buf held out h =
    ap (scan (t ++ rest)) (byte-prose x (t ++ rest) buf held out h.0)
    ∙ (scan-prose t rest buf held (out ++ x ∷ []) h.1
        ∙ ap (λ (o : Text). scan rest (at false buf held o)) (append_assoc out (x ∷ []) t))

pub scan-code :
    (t rest buf : Text) (held : List Text) (out : Text)
    → IsPlain t
    → scan (t ++ rest) (at true buf held out) ≡ scan rest (at true (buf ++ t) held out)
unfolding scan
scan-code [] rest buf held out h = rw (append-nil buf) refl
scan-code (x ∷ t) rest buf held out h =
    ap (scan (t ++ rest)) (byte-code x (t ++ rest) buf held out h.0)
    ∙ (scan-code t rest (buf ++ x ∷ []) held out h.1
        ∙ ap (λ (b : Text). scan rest (at true b held out)) (append_assoc buf (x ∷ []) t))

-- The last byte is a backtick.
unfoldable pub ends_in_backtick : Text → Bool
ends_in_backtick [] = false
ends_in_backtick (x ∷ []) = x == 96
ends_in_backtick (x ∷ y ∷ ys) = ends_in_backtick (y ∷ ys)

fence-append :
    (x : ℕ) (xs ys : Text)
    → ends_in_backtick (x ∷ xs) ≡ false
    → is_triple_backtick_at (x ∷ (xs ++ ys)) ≡ is_triple_backtick_at (x ∷ xs)
unfolding is_triple_backtick_at ends_in_backtick
fence-append x [] ys h = no_fence x ys h
fence-append x (y ∷ []) [] h = refl
fence-append x (y ∷ []) (z ∷ ys) h = ground (arith, h)
fence-append x (y ∷ z ∷ xs) ys h = refl

ends-tail : (x : ℕ) (xs : Text) → ends_in_backtick (x ∷ xs) ≡ false → ends_in_backtick xs ≡ false
unfolding ends_in_backtick
ends-tail x [] h = refl
ends-tail x (y ∷ ys) h = h

byte-append :
    (x : ℕ) (xs ys : Text) (s : Scan)
    → ends_in_backtick (x ∷ xs) ≡ false
    → scan_byte x (xs ++ ys) s ≡ scan_byte x xs s
unfolding scan_byte
byte-append x xs ys s h = rw (fence-append x xs ys h) refl

pub scan-append :
    (xs ys : Text) (s : Scan)
    → ends_in_backtick xs ≡ false
    → scan (xs ++ ys) s ≡ scan ys (scan xs s)
unfolding scan
scan-append [] ys s h = refl
scan-append (x ∷ xs) ys s h =
    ap (scan (xs ++ ys)) (byte-append x xs ys s h)
    ∙ (scan-append xs ys (scan_byte x xs s) (ends-tail x xs h))

-- The bytes to jump over lie within the text.
byte-skip :
    (x : ℕ) (xs : Text) (s : Scan) → s.skip ≤ suc (length xs) → (scan_byte x xs s).skip ≤ length xs
unfolding scan_byte toggled written is_triple_backtick_at
byte-skip x [] s h = ground arith
byte-skip x (y ∷ []) s h = ground arith
byte-skip x (y ∷ z ∷ xs) s h = ground arith

pub scan-skip : (xs : Text) (s : Scan) → s.skip ≤ length xs → (scan xs s).skip ≡ 0
unfolding scan
scan-skip [] s h = omega arith
scan-skip (x ∷ xs) s h = scan-skip xs (scan_byte x xs s) (byte-skip x xs s h)

-- What was released before is released still.
abbrev pub behind : Text → Scan → Scan
behind out s = record s { out = out ++ s.out }

byte-behind :
    (x : ℕ) (xs out : Text) (s : Scan)
    → scan_byte x xs (behind out s) ≡ behind out (scan_byte x xs s)
unfolding scan_byte toggled written
byte-behind x xs out s = elim (Bool-cases (ltb 0 s.skip)) [
  | inl is ↦ rw is refl
  | inr isnt ↦ rw isnt (elim (Bool-cases (is_triple_backtick_at (x ∷ xs))) [
    | inl here ↦ rw here (elim (Bool-cases s.in_code) [
      | inl inside ↦ rw inside refl
      | inr outside ↦ rw outside refl
    ])
    | inr there ↦ rw there (elim (Bool-cases s.in_code) [
      | inl inside ↦ rw inside refl
      | inr outside ↦ rw outside (
          ap (λ (o : Text). record s { in_code = false; out = o })
            (append_assoc out s.out (x ∷ [])))
    ])
  ])
]

pub scan-behind : (xs out : Text) (s : Scan) → scan xs (behind out s) ≡ behind out (scan xs s)
unfolding scan
scan-behind [] out s = refl
scan-behind (x ∷ xs) out s =
    ap (scan xs) (byte-behind x xs out s) ∙ scan-behind xs out (scan_byte x xs s)
