-- ===== src/Lib.antt =====
-- A verification library for the core of VigilAgent's Go server: the agent that plans and executes
-- tasks, and the components that guard it and the HTTP API. Each component is a module; its definitions
-- follow the Go functions, under their names in snake case, and its child modules prove what makes it
-- correct.
--
-- Common: the names that all modules share, lists with native numbers, and Go's `map[string]V` as an
--   association list (Common.Dicts).
-- Agent: a task and its life. Agent.Machine is internal/agent/state.go: `Transition` (transition),
--   `ValidTransitions`, `IsTerminal`. Agent.World, Agent.Round and Agent.Run are
--   internal/agent/agent.go: `planTask`, `waitHITLDecision`, `executeStep`, one round of the loop, and
--   `ExecuteTask` (execute_task). The loop calls the state machine at each step and ignores its errors
--   where the source does. The LLM router, the tools, the HITL queue, the context and the clock are the
--   fields of `Env`, functions of the round in which they are asked: a theorem holds whatever they
--   answer, but for the conditions that it names.
-- Breaker: the circuit breaker in front of an LLM provider (internal/llm/circuit_breaker.go). `Execute`
--   is its two critical sections, `begin` and `settle`; `System` interleaves them for many callers.
-- ResponseCache: the cache of LLM responses, evicting the least recently used
--   (internal/cache/response_cache.go).
-- LlmRouter: the model router (internal/llm/provider.go), which owns a breaker for each provider, a
--   health monitor, a cache and a budget. LlmRouter.Pricing, LlmRouter.Tasks and LlmRouter.Float are the
--   price table, the complexity score and its floats; LlmRouter.Choice is `rankCandidates` and `Route`;
--   LlmRouter.Attempts is `attempt` and `ExecuteWithFailover` (execute_with_failover), and
--   LlmRouter.Attempts.Streams is `StreamWithFailover` (stream_with_failover); they call the
--   operations of Breaker, LlmCache, ProviderHealth and Budget in the order of the source. What a
--   provider answers and the key of a request are parameters. The router runs for one caller at a time.
-- LlmCache: the exact-match cache of the LLM router (internal/llm/cache.go).
-- ProviderHealth: the health monitor of the providers (internal/llm/health.go), its rates as floats.
-- Budget: the budgets of organisations and tasks (internal/cost/budget.go); Budget.Keys: the keys of the
--   usage. The store of internal/cost/store.go is a parameter.
-- Hitl: the queue of checkpoints for humans and its handlers (internal/middleware/hitl.go). A pointer to
--   an entry is a handle into a memory; Hitl.Steps interleaves submitters, handlers, timers and the
--   expiry checker. DecideHandler is two steps: its checks, of the entry that it looks up, and its call
--   of `Decide`.
-- RateLimit: the limiter with three algorithms (internal/ratelimit/ratelimit.go);
--   RateLimit.Endpoint: the limits per path (internal/rateguard/rateguard.go), the same window.
--   RateLimit.Tiered: the limiter by plan (internal/ratelimit/tiered.go).
-- IpFilter: access by client address (internal/ipfilter/ipfilter.go), over the package net as a
--   parameter.
-- Health: the health of the server's components (internal/health/health.go).
-- Gateway: the gateway in front of the providers (internal/proxy). Gateway.Findings merges what the two
--   engines find, removes duplicates and gives score and verdict (internal/proxy/dualengine.go);
--   Gateway.Analysis runs them on the code blocks of a text; Gateway itself has the modes and the
--   policy; Gateway.Gate is `streamingGate`, and Gateway.Release what a client is sent by
--   `handleStreaming`, `handleResponsesStream`, `handleStreamingDirect` and the end of
--   `handleProxyRequest`; Gateway.Server is the rest of that handler, with keys, models, usage and
--   quota; Gateway.Provenance is the ring of signed records (internal/signing/signing.go);
--   Gateway.Design has `applyDesignGate`, its scan, and the limit by address. The texts of replies are
--   lists of bytes. Floats and `strings.ToLower` are the parameter `GoPackages`; regular expressions,
--   the engines, HMAC and JSON are parameters too.
-- Access: tokens that are revoked, in Redis, the global middleware that may answer a request, in its
--   order, and the scopes of API keys (internal/middleware/blacklist.go, internal/middleware/cache.go,
--   internal/middleware/scopes.go, internal/router/router.go). CORS and the heartbeat are a parameter.
-- Retry: `Execute` with its context (internal/retry/retry.go).
-- Lockout: accounts locked after failed logins (internal/middleware/lockout.go), in memory;
--   Lockout.Redis: the same over Redis, whose commands are the fields of `Redis`.
-- Idempotency: requests with an idempotency key run once (internal/idempotency/idempotency.go): the two
--   critical sections of `Middleware` are `arrive` and `finish`; Idempotency.Capture is the writer that
--   keeps the response.
--
-- Mutexes are taken for the whole of a method, or of a critical section, so that one is one step;
-- interleavings are lists of steps. Times and durations are nanoseconds in ℕ and are read from
-- arguments. The fuel of Agent.Run.loop is `maxIter`, the bound of the source's own loop. The fuel of
-- ResponseCache.make_room is one more than the number of entries, each round removing one.
--
-- Amounts of money and tokens are whole numbers of a small unit, and a sum of them is exact. Where the
-- rounding of floats decides, the complexity score and the error rate of a provider are modelled with
-- it, and the score of findings is over any arithmetic.
--
-- Not modelled: the HTTP clients of the LLM providers; of the gateway, prompts, metrics and
-- the JSON of replies; the cost of an agent's task; prompts of the agent,
-- logs, memories and texts that no decision reads; the agent's streaming of LLM replies; statistics that
-- only report, but for those of LlmCache, RateLimit.Endpoint and Health; hashes of keys; and the rest of
-- the repository, which is HTTP glue, SQL, scanners made of regular expressions, and the clients in other
-- languages.
pub mod Common
pub mod Agent
pub mod Breaker
pub mod ResponseCache
pub mod RateLimit
pub mod Lockout
pub mod Idempotency
pub mod LlmCache
pub mod ProviderHealth
pub mod Budget
pub mod LlmRouter
pub mod Hitl
pub mod IpFilter
pub mod Health
pub mod Gateway
pub mod Access
pub mod Retry
