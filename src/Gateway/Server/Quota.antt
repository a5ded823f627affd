-- ===== src/Gateway/Server/Quota.antt =====
-- The quota of a key over requests that come one after the other.
use pre_code.Common.{
  ℕ, suc, ◌+◌, ◌≤◌, ◌<◌, ◌≡◌, refl, sym, ap, ◌∙◌, Bool, true, false, ◌&&◌, Option, none, some, List,
  [], ◌∷◌, String, str_eq, eq_iff, ltb, if◌then◌else◌, Dict, lookup, lookup-insert, arith,
  Bool-cases, inl, inr, str_eq_comm,
}
use pre_code.Gateway.Server.{
  Config, KeyUsage, record_usage, used, usage_or_new, usage_count, count_of, is_over_quota,
  ProxyRequest, BaseRequest, LlmResponse, ProxyReply, http_error, stream_events, answered, World,
  executed, routed, checked, within_size, handle_proxy_request, model_of, model_allowed,
}

used-count :
    (now cost tokens : ℕ) (err : Bool) (o : Option KeyUsage)
    → (used now cost tokens err (usage_or_new o)).request_count ≡ suc (count_of o)
unfolding used usage_or_new count_of
used-count now cost tokens err none = refl
used-count now cost tokens err (some u) = omega arith

record_usage-count :
    (now : ℕ) (key k : String) (cost tokens : ℕ) (err : Bool) (usage : Dict KeyUsage)
    → str_eq key "" ≡ false
    → usage_count k (record_usage now key cost tokens err usage)
      ≡ (if str_eq key k then suc (usage_count k usage) else usage_count k usage)
unfolding record_usage usage_count count_of
record_usage-count now key k cost tokens err usage filled =
    rw filled (elim (Bool-cases (str_eq key k)) [
      | inl same ↦
          ap count_of
            (lookup-insert key k (used now cost tokens err (usage_or_new (lookup key usage))) usage)
          ∙ rw same (
              used-count now cost tokens err (lookup key usage)
              ∙ ap (λ (j : String). suc (count_of (lookup j usage))) ((eq_iff key k).0 same))
      | inr other ↦
          ap count_of
            (lookup-insert key k (used now cost tokens err (usage_or_new (lookup key usage))) usage)
          ∙ rw other refl
    ])

-- A request whose model was called and gave a reply.
unfoldable pub is_answered : {F : Type 0} → ProxyReply F → Bool
is_answered (http_error _) = false
is_answered (stream_events _) = false
is_answered (answered _) = true

unfoldable pub one_if : Bool → ℕ
one_if true = 1
one_if false = 0

module _ {F : Type 0} (world : World F) (cfg : Config) (k : String)
    (named : str_eq k "" ≡ false) where
  -- A step counts its answer to the key, and stops at the quota.
  Counts : ProxyRequest → Dict KeyUsage → ProxyReply F × Dict KeyUsage → Type 0
  Counts r usage p =
      (usage_count k usage + one_if (is_answered p.0 && str_eq r.api_key k) ≤ usage_count k p.1)
      × (usage_count k usage ≤ cfg.per_key_daily_quota
          → usage_count k p.1 ≤ cfg.per_key_daily_quota)

  Counts-same :
      (r : ProxyRequest) (reply : ProxyReply F) (usage : Dict KeyUsage)
      → is_answered reply ≡ false
      → Counts r usage (reply, usage)
  unfolding Counts one_if
  Counts-same r reply usage e = rw e (omega arith, λ h. h)

  one_if-le : (b : Bool) → one_if b ≤ 1
  unfolding one_if
  one_if-le true = omega arith
  one_if-le false = omega arith

  one_if-other : (b c : Bool) → c ≡ false → one_if (b && c) ≡ 0
  unfolding one_if
  one_if-other true c h = rw h refl
  one_if-other false c h = refl

  record_usage-unnamed :
      (now : ℕ) (key : String) (cost tokens : ℕ) (err : Bool) (usage : Dict KeyUsage)
      → str_eq key "" ≡ true
      → record_usage now key cost tokens err usage ≡ usage
  unfolding record_usage
  record_usage-unnamed now key cost tokens err usage h = rw h refl

  unnamed-other : (key : String) → str_eq key "" ≡ true → str_eq key k ≡ false
  unnamed-other key h =
      ap (λ (j : String). str_eq j k) ((eq_iff key "").0 h) ∙ str_eq_comm "" k ∙ named

  record_usage-Counts :
      (r : ProxyRequest) (reply : ProxyReply F) (cost tokens : ℕ) (err : Bool)
      (usage : Dict KeyUsage)
      → usage_count r.api_key usage < cfg.per_key_daily_quota
      → Counts r usage (reply, record_usage r.at r.api_key cost tokens err usage)
  unfolding Counts
  record_usage-Counts r reply cost tokens err usage below =
      let after = record_usage r.at r.api_key cost tokens err usage in
      elim (Bool-cases (str_eq r.api_key "")) [
        | inl unnamed ↦
            let same =
              ap (usage_count k)
                (record_usage-unnamed r.at r.api_key cost tokens err usage unnamed) in
            let none_more =
              one_if-other (is_answered reply) (str_eq r.api_key k)
                (unnamed-other r.api_key unnamed) in
            (omega (arith, same, none_more), λ h. omega (arith, same, h))
        | inr filled ↦
            let count = record_usage-count r.at r.api_key k cost tokens err usage filled in
            elim (Bool-cases (str_eq r.api_key k)) [
              | inl same ↦
                  let more : usage_count k after ≡ suc (usage_count k usage) =
                    count ∙ rw same refl in
                  let here : usage_count k usage ≡ usage_count r.api_key usage =
                    ap (λ (j : String). usage_count j usage) (sym ((eq_iff r.api_key k).0 same)) in
                  let least = one_if-le (is_answered reply && str_eq r.api_key k) in
                  (omega (arith, more, least), λ h. omega (arith, more, here, below))
              | inr other ↦
                  let equal : usage_count k after ≡ usage_count k usage = count ∙ rw other refl in
                  let none_more = one_if-other (is_answered reply) (str_eq r.api_key k) other in
                  (omega (arith, equal, none_more), λ h. omega (arith, equal, h))
            ]
      ]

  executed-Counts :
      (r : ProxyRequest) (o : Option LlmResponse) (usage : Dict KeyUsage)
      → usage_count r.api_key usage < cfg.per_key_daily_quota
      → Counts r usage (executed world cfg r o usage)
  unfolding executed
  executed-Counts r none usage below = record_usage-Counts r (http_error 502) 0 0 true usage below
  executed-Counts r (some resp) usage below =
      record_usage-Counts r _ resp.cost resp.tokens false usage below

  routed-Counts :
      (r : ProxyRequest) (stream : Bool) (usage : Dict KeyUsage)
      → usage_count r.api_key usage < cfg.per_key_daily_quota
      → Counts r usage (routed world cfg r stream usage)
  unfolding routed is_answered
  routed-Counts r stream usage below = elim (Bool-cases r.has_messages) [
    | inr none_given ↦ simp none_given (Counts-same r (http_error 400) usage refl)
    | inl given ↦ simp given (elim (Bool-cases stream) [
      | inl is ↦ rw is (Counts-same r (stream_events _) usage refl)
      | inr isnt ↦ rw isnt (executed-Counts r (world.execute r) usage below)
    ])
  ]

  checked-Counts :
      (r : ProxyRequest) (base : Option BaseRequest) (usage : Dict KeyUsage)
      → 0 < cfg.per_key_daily_quota
      → Counts r usage (checked world cfg r base usage)
  unfolding checked is_answered is_over_quota
  checked-Counts r none usage limited = Counts-same r (http_error 400) usage refl
  checked-Counts r (some base) usage limited =
      elim (Bool-cases (model_allowed cfg (model_of world cfg r base))) [
        | inr refused ↦ rw refused (Counts-same r (http_error 403) usage refl)
        | inl allowed ↦ rw allowed (elim (Bool-cases (is_over_quota cfg r.api_key usage)) [
          | inl over ↦ rw over (Counts-same r (http_error 429) usage refl)
          | inr within ↦
              rw within (routed-Counts r base.stream usage (ground (arith, limited, within)))
        ])
      ]

  within_size-Counts :
      (r : ProxyRequest) (size : Option ℕ) (usage : Dict KeyUsage)
      → 0 < cfg.per_key_daily_quota
      → Counts r usage (within_size world cfg r size usage)
  unfolding within_size is_answered
  within_size-Counts r none usage limited = Counts-same r (http_error 400) usage refl
  within_size-Counts r (some size) usage limited = elim (Bool-cases (ltb 10485760 size)) [
    | inl large ↦ rw large (Counts-same r (http_error 413) usage refl)
    | inr fits ↦ rw fits (checked-Counts r r.base usage limited)
  ]

  handle_proxy_request-Counts :
      (r : ProxyRequest) (usage : Dict KeyUsage)
      → 0 < cfg.per_key_daily_quota
      → Counts r usage (handle_proxy_request world cfg r usage)
  unfolding handle_proxy_request
  handle_proxy_request-Counts r usage limited = within_size-Counts r r.body_size usage limited

  -- How many of the requests are answered for the key, and the usage behind them.
  unfoldable pub serve_all : List ProxyRequest → Dict KeyUsage → ℕ × Dict KeyUsage
  unfolding is_answered one_if
  serve_all [] usage = (0, usage)
  serve_all (r ∷ rs) usage =
      let p = handle_proxy_request world cfg r usage in
      let q = serve_all rs p.1 in (one_if (is_answered p.0 && str_eq r.api_key k) + q.0, q.1)

  serve_all-counts :
      (rs : List ProxyRequest) (usage : Dict KeyUsage)
      → 0 < cfg.per_key_daily_quota
      → usage_count k usage ≤ cfg.per_key_daily_quota
      → (let q = serve_all rs usage in
          (usage_count k usage + q.0 ≤ usage_count k q.1)
          × (usage_count k q.1 ≤ cfg.per_key_daily_quota))
  unfolding serve_all Counts
  serve_all-counts [] usage limited h = (omega arith, h)
  serve_all-counts (r ∷ rs) usage limited h =
      let step = handle_proxy_request-Counts r usage limited in
      let rest =
        serve_all-counts rs (handle_proxy_request world cfg r usage).1 limited (step.1 h) in
      (omega (arith, step.0, rest.0), rest.1)

  -- A server with a quota, from its start and for requests one after the other, answers at most as
  -- many requests of a key that are not streamed as the quota allows.
  pub serve_all-quota :
      (rs : List ProxyRequest)
      → 0 < cfg.per_key_daily_quota
      → (serve_all rs []).0 ≤ cfg.per_key_daily_quota
  unfolding usage_count count_of lookup
  serve_all-quota rs limited =
      let h = serve_all-counts rs [] limited (omega arith) in omega (arith, h.0, h.1)
