-- ===== src/Gateway/Release/Closed.antt =====
-- Strict mode fails closed: what a stream releases is what was analyzed, and nothing where a block
-- of code has a serious finding.
use pre_code.Common.{
  ◌+◌, ◌≡◌, ◌≢◌, ◌⊎◌, refl, sym, ap, ◌∙◌, Bool, true, false, ◌&&◌, subst, Option, none, some, List,
  [], ◌∷◌, ◌++◌, append_assoc, append-nil, arith, Bool-cases, inl, inr, ltb, length, if◌then◌else◌,
}
use pre_code.Gateway.{
  Text, mode_strict, PolicyDecision, policy_scanner_unavailable, Verdict, block, pass, warn,
  compute_policy, policy_of, enforce_policy, Enforcement, release, refuse, is_strict,
  is_passthrough,
}
use pre_code.Gateway.Analysis.{Analyzed}
use pre_code.Gateway.Release.{
  Chunk, Sent, delta, summary, refusal, created, done, completed, Collected, collect, absorb, taken,
  is_empty, delta_of, handle_stream, concluded_events, judged_events, enforced, summary_of,
}

-- The generated text that is sent as deltas.
unfoldable pub sent_text : List Sent → Text
sent_text [] = []
sent_text (delta t ∷ es) = t ++ sent_text es
sent_text (summary _ _ _ ∷ es) = sent_text es
sent_text (refusal _ _ ∷ es) = sent_text es
sent_text (created ∷ es) = sent_text es
sent_text (done ∷ es) = sent_text es
sent_text (completed _ _ ∷ es) = sent_text es

-- The text of the final events, which have the whole reply again.
unfoldable pub final_text : List Sent → Text
final_text [] = []
final_text (completed t _ ∷ es) = t ++ final_text es
final_text (delta _ ∷ es) = final_text es
final_text (summary _ _ _ ∷ es) = final_text es
final_text (refusal _ _ ∷ es) = final_text es
final_text (created ∷ es) = final_text es
final_text (done ∷ es) = final_text es

pub final_text-append : (es fs : List Sent) → final_text (es ++ fs) ≡ final_text es ++ final_text fs
unfolding final_text
final_text-append [] fs = refl
final_text-append (completed t _ ∷ es) fs =
    ap (λ (u : Text). t ++ u) (final_text-append es fs)
    ∙ sym (append_assoc t (final_text es) (final_text fs))
final_text-append (delta _ ∷ es) fs = final_text-append es fs
final_text-append (summary _ _ _ ∷ es) fs = final_text-append es fs
final_text-append (refusal _ _ ∷ es) fs = final_text-append es fs
final_text-append (created ∷ es) fs = final_text-append es fs
final_text-append (done ∷ es) fs = final_text-append es fs

pub final_text-delta_of : (t : Text) → final_text (delta_of t) ≡ []
unfolding final_text delta_of
final_text-delta_of [] = refl
final_text-delta_of (x ∷ t) = refl

pub sent_text-append : (es fs : List Sent) → sent_text (es ++ fs) ≡ sent_text es ++ sent_text fs
unfolding sent_text
sent_text-append [] fs = refl
sent_text-append (delta t ∷ es) fs =
    ap (λ (u : Text). t ++ u) (sent_text-append es fs)
    ∙ sym (append_assoc t (sent_text es) (sent_text fs))
sent_text-append (summary _ _ _ ∷ es) fs = sent_text-append es fs
sent_text-append (refusal _ _ ∷ es) fs = sent_text-append es fs
sent_text-append (created ∷ es) fs = sent_text-append es fs
sent_text-append (done ∷ es) fs = sent_text-append es fs
sent_text-append (completed _ _ ∷ es) fs = sent_text-append es fs

pub sent_text-delta_of : (t : Text) → sent_text (delta_of t) ≡ t
unfolding sent_text delta_of
sent_text-delta_of [] = refl
sent_text-delta_of (x ∷ t) = append-nil (x ∷ t)

-- The outcome lets a text out in strict mode.
unfoldable pub IsReleasable : {F : Type 0} → Option (Analyzed F) → Type 0
IsReleasable none = Unit
IsReleasable (some a) = (a.outcome.verdict ≢ block) × (a.outcome.scanners_unavailable ≡ false)

pub and_true : (u : Bool) → u && true ≡ u
and_true false = refl
and_true true = refl

abbrev held : Text → Collected
held t = record { full = t; strict_buf = t; sent = [] }

absorb-held :
    (content t : Text)
    → (absorb true content (held t) ≡ none)
      ⊎ ((t' : Text) × (absorb true content (held t) ≡ some (held t')))
unfolding absorb taken
absorb-held content t = elim (Bool-cases (is_empty content)) [
  | inl is ↦ inr (t, rw is refl)
  | inr isnt ↦ rw isnt (elim (Bool-cases (ltb 10485760 (length t + length content))) [
    | inl over ↦ inl (rw over refl)
    | inr within ↦ inr (t ++ content, rw within refl)
  ])
]

collect-held : (cs : List Chunk) (t : Text) → (t' : Text) × (collect true cs (held t) ≡ held t')
unfolding collect
collect-held [] t = (t, refl)
collect-held (c ∷ cs) t = elim (absorb-held c.content t) [
  | inl stop ↦ rw (collect, stop) (t, refl)
  | inr go ↦
      rw (collect, go.1)
        (elim (Bool-cases c.finish) [
          | inl last ↦ rw last (go.0, refl)
          | inr more ↦ rw more (collect-held cs go.0)
        ])
]

module _ {F : Type 0} (analysis : Text → Option (Analyzed F)) where
  abbrev pub verdict_policy : Verdict → Bool → PolicyDecision
  verdict_policy v unavailable =
      if unavailable then policy_scanner_unavailable else policy_of v true

  pub sent_text-summary :
      (policy : PolicyDecision) (redacted : Bool) (a : Analyzed F)
      → sent_text (summary_of analysis policy redacted a) ≡ []
  unfolding sent_text summary_of
  sent_text-summary policy redacted a = elim (Bool-cases (ltb 0 (length a.unique))) [
    | inl some_found ↦ rw some_found refl
    | inr none_found ↦ rw none_found refl
  ]

  enforced-cases :
      (v : Verdict) (u : Bool) (buf : Text)
      → (let p = verdict_policy v u in
          let s = sent_text (enforced analysis (enforce_policy p mode_strict) p v buf) in
          (s ≡ []) ⊎ ((s ≡ buf) × (v ≢ block) × (u ≡ false)))
  unfolding enforced enforce_policy is_strict policy_of sent_text
  enforced-cases pass false buf = inr (sent_text-delta_of buf, (λ e. ground (arith, e)), refl)
  enforced-cases pass true buf = inl refl
  enforced-cases warn false buf = inr (sent_text-delta_of buf, (λ e. ground (arith, e)), refl)
  enforced-cases warn true buf = inl refl
  enforced-cases block false buf = inl refl
  enforced-cases block true buf = inl refl

  -- The events of a judged text with its policy.
  judged_with : Verdict → Bool → Text → Analyzed F → List Sent
  judged_with v u t a =
      let p = verdict_policy v u in
      enforced analysis (enforce_policy p mode_strict) p v t ++ summary_of analysis p false a

  judged-with :
      (t : Text) (a : Analyzed F)
      → judged_events analysis mode_strict (held t) a
        ≡ judged_with a.outcome.verdict a.outcome.scanners_unavailable t a
  unfolding judged_events compute_policy is_strict is_passthrough judged_with
  judged-with t a = simp (and_true a.outcome.scanners_unavailable) refl

  judged_text :
      (v : Verdict) (u : Bool) (t : Text) (a : Analyzed F)
      → sent_text (judged_with v u t a)
        ≡ sent_text (
            enforced analysis
              (enforce_policy (verdict_policy v u) mode_strict)
              (verdict_policy v u)
              v
              t)
  unfolding judged_with
  judged_text v u t a =
      let p = verdict_policy v u in
      let es = enforced analysis (enforce_policy p mode_strict) p v t in
      sent_text-append es (summary_of analysis p false a)
      ∙ ap (λ (w : Text). sent_text es ++ w) (sent_text-summary p false a)
      ∙ append-nil (sent_text es)

  judged-cases :
      (t : Text) (a : Analyzed F)
      → (let s = sent_text (judged_events analysis mode_strict (held t) a) in
          (s ≡ []) ⊎ ((s ≡ t) × IsReleasable (some a)))
  unfolding IsReleasable
  judged-cases t a =
      let same =
        ap sent_text (judged-with t a)
        ∙ judged_text a.outcome.verdict a.outcome.scanners_unavailable t a in
      elim (enforced-cases a.outcome.verdict a.outcome.scanners_unavailable t) [
        | inl nothing ↦ inl (same ∙ nothing)
        | inr all ↦ inr (same ∙ all.0, (all.1, all.2))
      ]

  concluded-cases :
      (t : Text) (o : Option (Analyzed F))
      → (let s = sent_text (concluded_events analysis mode_strict (held t) o) in
          (s ≡ []) ⊎ ((s ≡ t) × IsReleasable o))
  unfolding concluded_events is_strict IsReleasable
  concluded-cases t none = inr (sent_text-delta_of t, tt)
  concluded-cases t (some a) = judged-cases t a

  pub closed :
      (s t : Text)
      → (s ≡ []) ⊎ ((s ≡ t) × IsReleasable (analysis t))
      → (s ≡ []) ⊎ IsReleasable (analysis s)
  closed s t (inl e) = inl e
  closed s t (inr h) = inr (subst (λ (u : Text). IsReleasable (analysis u)) (sym h.0) h.1)

  streamed :
      (chunks : List Chunk) (t : Text)
      → collect true chunks (held []) ≡ held t
      → sent_text (handle_stream analysis mode_strict chunks)
        ≡ sent_text (concluded_events analysis mode_strict (held t) (analysis t))
  unfolding handle_stream is_strict is_passthrough sent_text
  streamed chunks t e =
      ap
        (λ (st : Collected).
          sent_text
            (st.sent ++ (concluded_events analysis mode_strict st (analysis st.full) ++ done ∷ [])))
        e
      ∙ sent_text-append (concluded_events analysis mode_strict (held t) (analysis t)) (done ∷ [])
      ∙ append-nil (sent_text (concluded_events analysis mode_strict (held t) (analysis t)))

  pub streaming-closed :
      (chunks : List Chunk)
      → (let s = sent_text (handle_stream analysis mode_strict chunks) in
          (s ≡ []) ⊎ IsReleasable (analysis s))
  streaming-closed chunks =
      let h = collect-held chunks [] in
      closed (sent_text (handle_stream analysis mode_strict chunks)) h.0 (
        subst (λ (s : Text). (s ≡ []) ⊎ ((s ≡ h.0) × IsReleasable (analysis h.0)))
          (sym (streamed chunks h.0 h.1)) (concluded-cases h.0 (analysis h.0)))

  pub final_text-summary :
      (policy : PolicyDecision) (redacted : Bool) (a : Analyzed F)
      → final_text (summary_of analysis policy redacted a) ≡ []
  unfolding final_text summary_of
  final_text-summary policy redacted a = elim (Bool-cases (ltb 0 (length a.unique))) [
    | inl some_found ↦ rw some_found refl
    | inr none_found ↦ rw none_found refl
  ]

  enforced-final :
      (e : Enforcement) (p : PolicyDecision) (v : Verdict) (t : Text)
      → final_text (enforced analysis e p v t) ≡ []
  unfolding enforced final_text
  enforced-final release p v t = final_text-delta_of t
  enforced-final (refuse status) p v t = refl

  concluded-final :
      (t : Text) (o : Option (Analyzed F))
      → final_text (concluded_events analysis mode_strict (held t) o) ≡ []
  unfolding concluded_events is_strict judged_with
  concluded-final t none = final_text-delta_of t
  concluded-final t (some a) =
      let p = verdict_policy a.outcome.verdict a.outcome.scanners_unavailable in
      let e = enforce_policy p mode_strict in
      let es = enforced analysis e p a.outcome.verdict t in
      let rest = summary_of analysis p false a in
      ap final_text (judged-with t a)
      ∙ final_text-append es rest
      ∙ ap (λ (w : Text). w ++ final_text rest) (enforced-final e p a.outcome.verdict t)
      ∙ final_text-summary p false a

  -- A chat stream has no final event.
  pub streaming-final :
      (chunks : List Chunk) → final_text (handle_stream analysis mode_strict chunks) ≡ []
  unfolding handle_stream is_strict is_passthrough final_text
  streaming-final chunks =
      let h = collect-held chunks [] in
      let es = concluded_events analysis mode_strict (held h.0) (analysis h.0) in
      ap
        (λ (st : Collected).
          final_text
            (st.sent ++ (concluded_events analysis mode_strict st (analysis st.full) ++ done ∷ [])))
        h.1
      ∙ final_text-append es (done ∷ [])
      ∙ append-nil (final_text es)
      ∙ concluded-final h.0 (analysis h.0)
