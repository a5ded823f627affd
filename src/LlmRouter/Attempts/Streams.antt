-- ===== src/LlmRouter/Attempts/Streams.antt =====
-- Streams (internal/llm/provider.go: `StreamWithFailover`, `streamAttempt`). The stream that starts
-- runs to its end before the router does anything else. Of the channels, the model has the chunks
-- that arrive before the context is cancelled or the source closes, and for each of them
-- whether the buffer of the reader has room. Tool calls are left out of a chunk.
pub mod Refusal
use Prim.Native.String.{len}
use pre_code.Common.{
  ℕ, zero, suc, ◌+◌, ◌*◌, ◌/◌, Bool, true, false, not, Option, none, some, List, [], ◌∷◌, String,
  Dict, lookup, if◌then◌else◌,
}
use pre_code.ProviderHealth.{record_failure, record_success}
use pre_code.Budget.{BudgetManager, BudgetExceededError}
use pre_code.LlmRouter.Pricing.{ModelInfo}
use pre_code.LlmRouter.Tasks.{Task, estimate_input_tokens}
use pre_code.LlmRouter.Choice.{FallbackOption, RoutingDecision, route}
use pre_code.LlmRouter.Attempts.{
  Provider, ModelRouter, Readings, request_of, refuses, tell, gate, pay, ranked,
}

pub record ChatChunk : Type 0 where
  pub content : String
  pub finish : Bool

-- What reaches the reader, and what the goroutine knows at the end.
pub record Drained : Type 0 where
  pub forwarded : List ChatChunk
  pub content_bytes : ℕ
  pub finished : Bool

-- The loop `drainLoop`; the n-th chunk finds room or is dropped.
unfoldable pub drain : (ℕ → Bool) → ℕ → List ChatChunk → Drained
drain room n [] = record { forwarded = []; content_bytes = 0; finished = false }
drain room n (c ∷ cs) =
    let rest = drain room (suc n) cs in
    let tail : Drained =
      if c.finish then record { forwarded = []; content_bytes = 0; finished = true } else rest in
    record {
      forwarded = if room n then c ∷ tail.forwarded else tail.forwarded;
      content_bytes = len c.content + tail.content_bytes;
      finished = tail.finished;
    }

-- `info, _ := LookupPrice(opt.Model)`, of the global table.
unfoldable pub output_cost_of : Option ModelInfo → ℕ
output_cost_of none = 0
output_cost_of (some info) = info.output_cost

-- Half of the estimate, and the price of the output.
unfoldable pub stream_cost : Dict ModelInfo → FallbackOption → ℕ → ℕ
stream_cost table opt bytes =
    opt.est_cost / 2 + 2 * (bytes / 4 * output_cost_of (lookup opt.model table))

-- What the goroutine records when the loop ends.
unfoldable pub end_stream :
    Readings → Task → FallbackOption → Dict ModelInfo → ℕ → Drained → ModelRouter → ModelRouter
end_stream at task opt table latency d r =
    if d.finished
    then record r {
      health_monitor = record_success at.told_at opt.provider latency r.health_monitor;
      circuit_breakers = tell at false opt.provider r.circuit_breakers;
      budget = pay task (stream_cost table opt d.content_bytes) r.budget;
    }
    else record r {
      health_monitor = record_failure opt.provider r.health_monitor;
      circuit_breakers = tell at true opt.provider r.circuit_breakers;
    }

-- After the check of the budget; the flag says that the stream started.
stream_gated :
    Readings
    → Task
    → FallbackOption
    → Provider
    → ModelRouter
    → Option BudgetExceededError
    → ModelRouter × Bool
stream_gated at task opt p r none =
    if p.stream at.called_at (request_of task opt.model r.prices) then (r, true) else (
      record r {
        health_monitor = record_failure opt.provider r.health_monitor;
        circuit_breakers = tell at true opt.provider r.circuit_breakers;
      },
      false,
    )
stream_gated at task opt p r (some e) = (r, false)

stream_with : Readings → Task → FallbackOption → ModelRouter → Option Provider → ModelRouter × Bool
unfolding gate stream_gated
stream_with at task opt r none = (r, false)
stream_with at task opt r (some p) =
    if refuses (lookup opt.provider r.circuit_breakers)
    then (r, false)
    else (let (budget', e) = gate task opt.est_cost r.budget in
        stream_gated at task opt p (record r { budget = budget' }) e)

-- `streamAttempt` up to the goroutine.
unfoldable pub stream_attempt : Readings → Task → FallbackOption → ModelRouter → ModelRouter × Bool
unfolding stream_with
stream_attempt at task opt r = stream_with at task opt r (lookup opt.provider r.providers)

-- The loop over the attempts: the attempt that started a stream.
unfoldable pub try_streams :
    (ℕ → Readings)
    → ℕ
    → Task
    → List FallbackOption
    → ModelRouter
    → ModelRouter × Option FallbackOption
unfolding stream_attempt
try_streams at n task [] r = (r, none)
try_streams at n task (opt ∷ opts) r =
    let (r', started) = stream_attempt (at n) task opt r in
    let rest = try_streams at (suc n) task opts r' in if started then (r', some opt) else rest

streamed :
    (ℕ → Readings)
    → Task
    → ModelRouter
    → Option RoutingDecision
    → ModelRouter × Option FallbackOption
unfolding try_streams ranked
streamed at task r none = (r, none)
streamed at task r (some d) = try_streams at 0 task (ranked d) r

-- `StreamWithFailover`; `none` is an error. The estimate of the input is `estimate_input_tokens`.
unfoldable pub stream_with_failover :
    (ℕ → Readings) → Task → ModelRouter → ModelRouter × Option FallbackOption
unfolding streamed
stream_with_failover at task r = streamed at task r (route r.config r.health_monitor r.prices task)

-- The goroutine of the stream that started, if one did.
unfoldable pub ended :
    Readings
    → Task
    → Dict ModelInfo
    → ℕ
    → Drained
    → ModelRouter × Option FallbackOption
    → ModelRouter
ended at task table latency d (r, none) = r
ended at task table latency d (r, some opt) = end_stream at task opt table latency d r
