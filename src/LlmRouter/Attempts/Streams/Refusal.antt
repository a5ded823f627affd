-- ===== src/LlmRouter/Attempts/Streams/Refusal.antt =====
-- Streams and open breakers.
use pre_code.Common.{
  ℕ, suc, ◌≡◌, refl, sym, ◌∙◌, ap, subst, Bool, true, false, Option, none, some, List, [], ◌∷◌,
  String, Dict, lookup, str_eq, eq_iff, if◌then◌else◌, Bool-cases, inl, inr, arith,
}
use mathlib.Core.Bool.{true≢false}
use mathlib.Core.Option.{some-injective}
use pre_code.Breaker.{CircuitBreaker, is_open}
use pre_code.Budget.{BudgetExceededError}
use pre_code.LlmRouter.Pricing.{ModelInfo}
use pre_code.LlmRouter.Tasks.{Task}
use pre_code.LlmRouter.Choice.{FallbackOption, RoutingDecision, route}
use pre_code.LlmRouter.Attempts.{Provider, ModelRouter, Readings, refuses, ranked, request_of, gate}
use pre_code.LlmRouter.Attempts.Effects.{tell-other}
use pre_code.LlmRouter.Attempts.Streams.{
  Drained, end_stream, stream_gated, stream_with, stream_attempt, try_streams, streamed,
  stream_with_failover, ended,
}

-- The provider's breaker is this one.
abbrev Has : String → CircuitBreaker → ModelRouter → Type 0
Has name cb r = lookup name r.circuit_breakers ≡ some cb

stream_with-refused :
    (at : Readings) (task : Task) (opt : FallbackOption) (r : ModelRouter) (o : Option Provider)
    → refuses (lookup opt.provider r.circuit_breakers) ≡ true
    → stream_with at task opt r o ≡ (r, false)
unfolding stream_with
stream_with-refused at task opt r none h = refl
stream_with-refused at task opt r (some p) h = rw h refl

pub stream_attempt-refused :
    (at : Readings) (task : Task) (opt : FallbackOption) (r : ModelRouter) (cb : CircuitBreaker)
    → lookup opt.provider r.circuit_breakers ≡ some cb
    → is_open cb ≡ true
    → stream_attempt at task opt r ≡ (r, false)
unfolding stream_attempt refuses
stream_attempt-refused at task opt r cb h o =
    stream_with-refused at task opt r (lookup opt.provider r.providers) (rw h o)

stream_gated-other :
    (at : Readings) (task : Task) (opt : FallbackOption) (p : Provider) (r : ModelRouter)
    (e : Option BudgetExceededError) (name : String)
    → str_eq opt.provider name ≡ false
    → lookup name (stream_gated at task opt p r e).0.circuit_breakers
      ≡ lookup name r.circuit_breakers
unfolding stream_gated
stream_gated-other at task opt p r none name other =
    elim (Bool-cases (p.stream at.called_at (request_of task opt.model r.prices))) [
      | inl is ↦ simp is refl
      | inr isnt ↦ simp isnt (tell-other at true opt.provider name r.circuit_breakers other)
    ]
stream_gated-other at task opt p r (some x) name other = refl

stream_with-other :
    (at : Readings) (task : Task) (opt : FallbackOption) (r : ModelRouter) (o : Option Provider)
    (name : String)
    → str_eq opt.provider name ≡ false
    → lookup name (stream_with at task opt r o).0.circuit_breakers ≡ lookup name r.circuit_breakers
unfolding stream_with
stream_with-other at task opt r none name other = refl
stream_with-other at task opt r (some p) name other =
    elim (Bool-cases (refuses (lookup opt.provider r.circuit_breakers))) [
      | inl is ↦ rw is refl
      | inr isnt ↦ rw isnt (
          let (budget', e) = gate task opt.est_cost r.budget in
          stream_gated-other at task opt p (record r { budget = budget' }) e name other)
    ]

stream_attempt-other :
    (at : Readings) (task : Task) (opt : FallbackOption) (r : ModelRouter) (name : String)
    → str_eq opt.provider name ≡ false
    → lookup name (stream_attempt at task opt r).0.circuit_breakers ≡ lookup name r.circuit_breakers
unfolding stream_attempt
stream_attempt-other at task opt r name other =
    stream_with-other at task opt r (lookup opt.provider r.providers) name other

-- The breaker is kept, and it is another provider that starts a stream.
abbrev Avoids : String → CircuitBreaker → ModelRouter × Option FallbackOption → Type 0
Avoids name cb x =
    Has name cb x.0 × ((opt : FallbackOption) → x.1 ≡ some opt → str_eq opt.provider name ≡ false)

started-Avoids :
    (name : String) (cb : CircuitBreaker) (opt : FallbackOption) (started : Bool) (r' : ModelRouter)
    (rest : ModelRouter × Option FallbackOption)
    → Has name cb r'
    → (started ≡ true → str_eq opt.provider name ≡ false)
    → Avoids name cb rest
    → Avoids name cb (if started then (r', some opt) else rest)
started-Avoids name cb opt true r' rest h f a = (
  h,
  λ opt' same.
      subst (λ (x : FallbackOption). str_eq x.provider name ≡ false) (some-injective _ _ same)
        (f refl),
)
started-Avoids name cb opt false r' rest h f a = a

attempt-Avoids :
    (at : Readings) (task : Task) (opt : FallbackOption) (r : ModelRouter) (name : String)
    (cb : CircuitBreaker)
    → is_open cb ≡ true
    → Has name cb r
    → Has name cb (stream_attempt at task opt r).0
      × ((stream_attempt at task opt r).1 ≡ true → str_eq opt.provider name ≡ false)
attempt-Avoids at task opt r name cb o h = elim (Bool-cases (str_eq opt.provider name)) [
  | inr other ↦ (stream_attempt-other at task opt r name other ∙ h, λ started. other)
  | inl is ↦
      (let used : opt.provider ≡ name = (eq_iff opt.provider name).0 is in
        let same =
          stream_attempt-refused at task opt r cb (subst (λ (n : String). Has n cb r) (sym used) h)
            o in
        (
          subst (λ (s : ModelRouter). Has name cb s)
              (sym (ap (λ (x : ModelRouter × Bool). x.0) same)) h,
          λ started. absurd (true≢false (sym started ∙ ap (λ (x : ModelRouter × Bool). x.1) same)),
        ))
]

try_streams-Avoids :
    (at : ℕ → Readings) (n : ℕ) (task : Task) (opts : List FallbackOption) (r : ModelRouter)
    (name : String) (cb : CircuitBreaker)
    → is_open cb ≡ true
    → Has name cb r
    → Avoids name cb (try_streams at n task opts r)
unfolding try_streams
try_streams-Avoids at n task [] r name cb o h = (h, λ opt same. absurd (ground (arith, same)))
try_streams-Avoids at n task (opt ∷ opts) r name cb o h =
    let (r', started) = stream_attempt (at n) task opt r in
    let (k, f) = attempt-Avoids (at n) task opt r name cb o h in
    started-Avoids name cb opt started r' (try_streams at (suc n) task opts r') k f
      (try_streams-Avoids at (suc n) task opts r' name cb o k)

streamed-Avoids :
    (at : ℕ → Readings) (task : Task) (r : ModelRouter) (d : Option RoutingDecision) (name : String)
    (cb : CircuitBreaker)
    → is_open cb ≡ true
    → Has name cb r
    → Avoids name cb (streamed at task r d)
unfolding streamed
streamed-Avoids at task r none name cb o h = (h, λ opt same. absurd (ground (arith, same)))
streamed-Avoids at task r (some d) name cb o h =
    try_streams-Avoids at 0 task (ranked d) r name cb o h

end_stream-other :
    (at : Readings) (task : Task) (opt : FallbackOption) (table : Dict ModelInfo) (latency : ℕ)
    (d : Drained) (r : ModelRouter) (name : String)
    → str_eq opt.provider name ≡ false
    → lookup name (end_stream at task opt table latency d r).circuit_breakers
      ≡ lookup name r.circuit_breakers
unfolding end_stream
end_stream-other at task opt table latency d r name other = elim (Bool-cases d.finished) [
  | inl is ↦ simp is (tell-other at false opt.provider name r.circuit_breakers other)
  | inr isnt ↦ simp isnt (tell-other at true opt.provider name r.circuit_breakers other)
]

ended-Has :
    (at : Readings) (task : Task) (table : Dict ModelInfo) (latency : ℕ) (d : Drained)
    (x : ModelRouter × Option FallbackOption) (name : String) (cb : CircuitBreaker)
    → Avoids name cb x
    → Has name cb (ended at task table latency d x)
unfolding ended
ended-Has at task table latency d (r, none) name cb a = a.0
ended-Has at task table latency d (r, some opt) name cb a =
    end_stream-other at task opt table latency d r name (a.1 opt refl) ∙ a.0

-- A stream to its end leaves an open breaker as it is.
pub stream_keeps_open :
    (at : ℕ → Readings) (end : Readings) (task : Task) (table : Dict ModelInfo) (latency : ℕ)
    (d : Drained) (r : ModelRouter) (name : String) (cb : CircuitBreaker)
    → is_open cb ≡ true
    → lookup name r.circuit_breakers ≡ some cb
    → lookup name (ended end task table latency d (stream_with_failover at task r)).circuit_breakers
      ≡ some cb
unfolding stream_with_failover
stream_keeps_open at end task table latency d r name cb o h =
    ended-Has end task table latency d _ name cb
      (streamed-Avoids at task r (route r.config r.health_monitor r.prices task) name cb o h)
