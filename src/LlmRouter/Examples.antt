-- ===== src/LlmRouter/Examples.antt =====
-- The router at concrete tasks, and its theorems there.
use pre_code.Common.{
  sort_by, ℕ, ◌+◌, ◌==◌, ◌*◌, ◌≡◌, refl, inl, true, false, none, some, is_some, List, [], ◌∷◌,
  String, lookup, str_eq, leb, arith,
}
use pre_code.Breaker.{CircuitBreaker, opened, is_open, new}
use pre_code.LlmCache.{get, ChatResponse}
use pre_code.ProviderHealth.{confidence, HealthMonitor, fresh_health, get_healthy_providers}
use pre_code.LlmRouter.Float
use pre_code.LlmRouter.Pricing.{est_cost_of, supports_all, price_table, default_model_for, contains}
use pre_code.LlmRouter.Tasks.{
  estimate_input_tokens, Task, classify_complexity, get_models_for_complexity, system_prompt,
}
use pre_code.LlmRouter.Choice.{
  cheaper, rank_candidates, RouterConfig, RoutingDecision, FallbackOption, route, candidates,
}
use pre_code.LlmRouter.Choice.Ranking.{Good, route-Good}
use pre_code.LlmRouter.Choice.Tiers.{route_tools}
use pre_code.LlmRouter.Attempts.{
  ChatRequest, Provider, ModelRouter, Readings, attempt, execute_with_failover, hit, answered,
  refuses,
}
use pre_code.LlmRouter.Attempts.Streams.{ChatChunk, drain}
use pre_code.LlmRouter.Attempts.Failover.{Ready, execute-answers}
use pre_code.LlmRouter.Attempts.Again.{attempt_again}

abbrev config : RouterConfig
config = record { default_model = ""; default_output_tokens = 500 }

abbrev rename_task : Task
rename_task = record {
  id = "t";
  org_id = "a";
  type = "rename";
  description = "";
  files_changed = "main.go" ∷ [];
  requires_reasoning = false;
  is_novel = false;
  tags = [];
  messages = record { role = "user"; content = "Rename it." } ∷ [];
  required_capabilities = "tools" ∷ [];
  target_model = "";
}

abbrev two_healthy : HealthMonitor
two_healthy = ("anthropic", fresh_health) ∷ ("openai", fresh_health) ∷ []

abbrev decision : RoutingDecision
decision = record {
  provider = "openai";
  model = "gpt-4o-mini";
  est_cost = 615000;
  confidence = 72057594037927936;
  fallbacks =
      record { provider = "anthropic"; model = "claude-haiku-3.5"; est_cost = 4080000 } ∷ [];
}

decided : route config two_healthy price_table rename_task ≡ some decision
unfolding route rank_candidates sort_by get_models_for_complexity classify_complexity
    Float.float_add contains lookup price_table get_healthy_providers supports_all cheaper
    est_cost_of estimate_input_tokens confidence
decided = refl

route-Good_example :
    Good config two_healthy price_table rename_task
      (candidates config two_healthy price_table rename_task)
      decision
route-Good_example = route-Good config two_healthy price_table rename_task decision decided

openai_fit : contains "openai" (get_healthy_providers two_healthy) ≡ true
unfolding contains get_healthy_providers
openai_fit = refl

route_tools_example : is_some (route config two_healthy price_table rename_task) ≡ true
route_tools_example = route_tools config two_healthy rename_task (inl openai_fit) (refl, tt)

-- A documentation task of six files scores 0.1 + 0.2, which as a float is above 0.3.
abbrev six_files : Task
six_files = record rename_task {
  type = "documentation";
  files_changed = "a" ∷ "b" ∷ "c" ∷ "d" ∷ "e" ∷ "f" ∷ [];
}

six_files_above : leb (classify_complexity six_files) Float.p30 ≡ false
unfolding classify_complexity Float.float_add contains
six_files_above = refl

rename_prompt :
    system_prompt rename_task
    ≡ "You are VigilAgent, an AI coding assistant. Complete the requested task accurately and efficiently. Files involved: main.go. "
unfolding system_prompt
rename_prompt = refl

abbrev reply : ChatResponse
reply = record {
  content = "done";
  input_tokens = 40;
  output_tokens = 5;
  cost = 9000;
  latency = 700;
  model = "gpt-4o-mini";
  provider = "openai";
  stop_reason = "stop";
}

-- A provider that always answers, and one that never does.
abbrev willing : Provider
willing = record { chat = λ now req. some reply; stream = λ now req. true }

abbrev broken : Provider
broken = record { chat = λ now req. none; stream = λ now req. false }

abbrev open_breaker : CircuitBreaker
open_breaker = record {
  state = opened;
  fail_count = 5;
  success_count = 0;
  last_failure = 10;
  threshold = 5;
  timeout = 30000000000;
  half_open_probes = 0;
}

abbrev router : ModelRouter
router = record {
  providers = ("anthropic", broken) ∷ ("openai", broken) ∷ ("groq", willing) ∷ [];
  health_monitor = two_healthy;
  circuit_breakers = ("anthropic", open_breaker) ∷ ("openai", new 5 30000000000) ∷ [];
  config = config;
  prices = price_table;
  cache = some (record { ttl = 100; entries = []; hits = 0; misses = 0 });
  budget = none;
}

-- The n-th attempt, a minute after the one before.
abbrev clock : ℕ → Readings
clock n = record {
  looked_at = 60000000000 * n + 1;
  called_at = 60000000000 * n + 2;
  told_at = 60000000000 * n + 3;
  settled_at = 60000000000 * n + 4;
  stored_at = 60000000000 * n + 5;
}

abbrev model_key : ChatRequest → String
model_key req = req.model

abbrev two_chunks : List ChatChunk
two_chunks =
    record { content = "do"; finish = false } ∷ record { content = "ne"; finish = true } ∷ []

-- The buffer of the reader is full when the second chunk comes, so the end does not reach the reader.
dropped_end : drain (λ n. n == 0) 0 two_chunks ≡ record {
  forwarded = record { content = "do"; finish = false } ∷ [];
  content_bytes = 4;
  finished = true;
}
unfolding drain
dropped_end = refl

-- The same, with an OpenAI that answers.
abbrev answering : ModelRouter
answering = record router {
  providers = ("anthropic", broken) ∷ ("openai", willing) ∷ ("groq", broken) ∷ [];
}

openai_Ready : Ready "openai" willing answering
unfolding lookup refuses is_open new
openai_Ready = record {
  registered = refl;
  answers = λ now req. refl;
  admitted = refl;
  unguarded = refl;
}

openai_priced : str_eq (default_model_for "openai" price_table) "" ≡ false
unfolding default_model_for price_table
openai_priced = refl

execute-answers_example :
    is_some (execute_with_failover model_key clock rename_task answering).1 ≡ true
execute-answers_example =
    execute-answers model_key clock rename_task decision "openai" willing answering decided
      openai_fit openai_Ready openai_priced

abbrev cheap : FallbackOption
cheap = record { provider = "groq"; model = "llama-3.1-8b-instant"; est_cost = 40 }

cheap_answered : (attempt model_key (clock 0) rename_task cheap router).1 ≡ answered reply
unfolding attempt lookup refuses get
cheap_answered = refl

-- At the times of the attempt itself.
attempt_again_example :
    let r' = (attempt model_key (clock 0) rename_task cheap router).0 in
    ((attempt model_key (clock 0) rename_task cheap r').1
      ≡ hit (record reply { cost = 0; latency = 0 }))
    × ((attempt model_key (clock 0) rename_task cheap r').0.budget ≡ r'.budget)
attempt_again_example =
    attempt_again model_key (clock 0) (clock 0) rename_task cheap reply
      (record { ttl = 100; entries = []; hits = 0; misses = 0 }) router refl cheap_answered
      (omega arith)
