-- ===== src/Gateway/Gate/Documents.antt =====
-- What the gate releases of a text with fenced code: the prose at once, the code at the end.
use pre_code.Common.{
  ℕ, ◌≡◌, refl, sym, ap, ◌∙◌, Bool, true, false, ◌&&◌, List, [], ◌∷◌, ◌++◌, if◌then◌else◌, All,
  arith, append_assoc, append-nil,
}
use pre_code.Gateway.{Text, mode_balanced, PolicyDecision}
use pre_code.Gateway.Gate.Scans.{
  IsPlain, at, scan-open, scan-close, scan-prose, scan-code, ends_in_backtick, scan-append,
  scan-skip, behind, scan-behind,
}
use pre_code.Gateway.Gate.{
  StreamingGate, Scan, fence, scan, push_balanced, push, push_in, new_streaming_gate, finish,
  finish_in, finish_balanced, withholds, placeholders, join_lines,
}

pub data Segment : Type 0 where
  prose code : Text → Segment

abbrev text_of : Segment → Text
text_of (prose t) = t
text_of (code t) = t

abbrev pub IsDocument : List Segment → Type 0
IsDocument = All (λ s. IsPlain (text_of s))

unfoldable pub fenced : Text → Text
fenced t = fence ++ (t ++ fence)

unfoldable pub render : List Segment → Text
unfolding fenced
render [] = []
render (prose t ∷ ss) = t ++ render ss
render (code t ∷ ss) = fence ++ (t ++ (fence ++ render ss))

unfoldable pub prose_of : List Segment → Text
prose_of [] = []
prose_of (prose t ∷ ss) = t ++ prose_of ss
prose_of (code t ∷ ss) = prose_of ss

unfoldable pub code_of : List Segment → List Text
unfolding fenced
code_of [] = []
code_of (prose t ∷ ss) = code_of ss
code_of (code t ∷ ss) = fenced t ∷ code_of ss

scan-render :
    (d : List Segment) (held : List Text) (out : Text)
    → IsDocument d
    → scan (render d) (at false [] held out) ≡ at false [] (held ++ code_of d) (out ++ prose_of d)
unfolding render code_of prose_of fenced scan
scan-render [] held out h = rw (append-nil held) (rw (append-nil out) refl)
scan-render (prose t ∷ ss) held out h =
    scan-prose t (render ss) [] held out h.0
    ∙ scan-render ss held (out ++ t) h.1
    ∙ ap (λ (o : Text). at false [] (held ++ code_of ss) o) (append_assoc out t (prose_of ss))
scan-render (code t ∷ ss) held out h =
    scan-open (t ++ (fence ++ render ss)) [] held out
    ∙ scan-code t (fence ++ render ss) fence held out h.0
    ∙ scan-close (render ss) (fence ++ t) held out
    ∙ scan-render ss (held ++ (fence ++ (t ++ fence)) ∷ []) out h.1
    ∙ ap (λ (c : List Text). at false [] c (out ++ prose_of ss))
        (append_assoc held ((fence ++ (t ++ fence)) ∷ []) (code_of ss))

-- A gate in balanced mode.
abbrev gate : Bool → Text → List Text → StreamingGate
gate c buf held = record { mode = mode_balanced; in_code = c; buf = buf; held_code = held }

-- The chunks of a stream, pushed one after the other.
unfoldable pub pushes : List Text → StreamingGate → Text × StreamingGate
pushes [] g = ([], g)
pushes (t ∷ ts) g = let p = push t g in let q = pushes ts p.1 in (p.0 ++ q.0, q.1)

abbrev pub concat : List Text → Text
concat [] = []
concat (t ∷ ts) = t ++ concat ts

-- No chunk ends in a backtick, so that none cuts a fence.
abbrev pub KeepFences : List Text → Type 0
KeepFences = All (λ (t : Text). ends_in_backtick t ≡ false)

unfoldable scanned : Scan → Text × StreamingGate
scanned s = (s.out, gate s.in_code s.buf s.held_code)

resumed :
    (ts : List Text) (s : Scan)
    → s.skip ≡ 0
    → scan (concat ts) s ≡ behind s.out (scan (concat ts) (at s.in_code s.buf s.held_code []))
resumed ts s h =
    ap (scan (concat ts)) (
      sym (
        ap (λ (o : Text). record s { out = o; skip = 0 }) (append-nil s.out)
        ∙ ap (λ (k : ℕ). record s { skip = k }) (sym h)))
    ∙ scan-behind (concat ts) s.out (at s.in_code s.buf s.held_code [])

pushes-scan :
    (ts : List Text) (c : Bool) (buf : Text) (held : List Text)
    → KeepFences ts
    → pushes ts (gate c buf held) ≡ scanned (scan (concat ts) (at c buf held []))
unfolding pushes push push_in push_balanced scanned scan
pushes-scan [] c buf held h = refl
pushes-scan (t ∷ ts) c buf held h =
    let s : Scan = scan t (at c buf held []) in
    ap (λ (q : Text × StreamingGate). (s.out ++ q.0, q.1))
      (pushes-scan ts s.in_code s.buf s.held_code h.1)
    ∙ sym (
        ap scanned (
          scan-append t (concat ts) (at c buf held []) h.0
          ∙ resumed ts s (scan-skip t (at c buf held []) (omega arith))))

unfoldable pub has_code : List Segment → Bool
has_code [] = false
has_code (prose t ∷ ss) = has_code ss
has_code (code t ∷ ss) = true

finish-code :
    (policy : PolicyDecision) (d : List Segment)
    → finish_balanced policy (code_of d) ≡ (
        if withholds policy && has_code d
        then (placeholders (code_of d), true)
        else (join_lines (code_of d), false))
unfolding finish_balanced code_of has_code join_lines
finish-code policy [] = ground arith
finish-code policy (prose t ∷ ss) = finish-code policy ss
finish-code policy (code t ∷ ss) = ground arith

-- A document with fenced code, whose prose and code have no backtick in them, in balanced mode, in any
-- chunks of which none ends in a backtick: its prose is released live and nothing of its code; at the
-- end, the fenced blocks are released, or, where the policy is to hold for review or to block and there
-- is code, a line in place of each.
pub pushes-render :
    (d : List Segment) (ts : List Text) (policy : PolicyDecision)
    → IsDocument d
    → concat ts ≡ render d
    → KeepFences ts
    → (let p = pushes ts (new_streaming_gate mode_balanced) in
        (p.0 ≡ prose_of d)
        × (finish policy p.1 ≡ (
            if withholds policy && has_code d
            then (placeholders (code_of d), true)
            else (join_lines (code_of d), false))))
unfolding new_streaming_gate finish finish_in scanned
pushes-render d ts policy h e k =
    let whole : pushes ts (gate false [] []) ≡ ([] ++ prose_of d, gate false [] ([] ++ code_of d)) =
      pushes-scan ts false [] [] k
      ∙ ap (λ (t : Text). scanned (scan t (at false [] [] []))) e
      ∙ ap scanned (scan-render d [] [] h) in
    (
      ap (λ (q : Text × StreamingGate). q.0) whole,
      ap (λ (q : Text × StreamingGate). finish policy q.1) whole ∙ finish-code policy d,
    )
