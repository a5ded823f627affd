-- ===== src/Gateway/Server.antt =====
-- The gateway's server (internal/proxy/proxy.go): keys, the tenant's models, usage and quota, the rate
-- limit by address, and `handleProxyRequest`. The provider's reply, the parts of a header or of a
-- list that the source splits and trims, and the parsed body are inputs of a request.
pub mod Quota
use text.Mathlib.Text.{starts_with}
use Prim.Native.String.{slice, len}
use pre_code.Common.{
  ℕ, ◌+◌, ◌-◌, suc, Bool, true, false, not, ◌&&◌, ◌||◌, Option, none, some, List, [], ◌∷◌, ◌++◌,
  String, str_eq, ltb, leb, if◌then◌else◌, Dict, lookup, insert, is_some,
}
use pre_code.Gateway.{Text, EnforcementMode}
use pre_code.Gateway.Findings.{Finding, any}
use pre_code.Gateway.Analysis.{Analyzed}
use pre_code.Gateway.Release.{Chunk, Sent, Reply, handle_streaming, released_reply}

-- The lists are those of the comma-separated values, split and trimmed; `none` is an empty value.
pub record Config : Type 0 where
  pub allowed_api_keys : Option (List String)
  pub api_key : String
  pub allowed_models : Option (List String)
  pub per_key_daily_quota : ℕ

unfoldable pub parse_allowed_keys : List String → List String
parse_allowed_keys [] = []
parse_allowed_keys (k ∷ ks) =
    let rest = parse_allowed_keys ks in if str_eq k "" then rest else k ∷ rest

unfoldable pub keys_or : String → Option (List String) → List String
unfolding parse_allowed_keys
keys_or api_key (some parts) = parse_allowed_keys parts
keys_or api_key none = if str_eq api_key "" then [] else api_key ∷ []

unfoldable pub resolve_allowed_keys : Config → List String
unfolding keys_or
resolve_allowed_keys cfg = keys_or cfg.api_key cfg.allowed_api_keys

-- The key of `Authorization: Bearer <key>`.
unfoldable pub bearer_of : String → String
bearer_of auth = if starts_with auth "Bearer " then slice auth 7 (len auth) else ""

unfoldable pub key_given : String → String → String
unfolding bearer_of
key_given x_api_key auth = if str_eq x_api_key "" then bearer_of auth else x_api_key

-- `none` is a 401; else the key in the request's context, "" on the open paths.
unfoldable pub authenticate : List String → String → String → String → Option String
unfolding key_given any
authenticate allowed path x_api_key auth =
    let key = key_given x_api_key auth in
    if str_eq path "/health" || str_eq path "/metrics"
    then some ""
    else if str_eq key ""
    then none
    else if any (str_eq key) allowed
    then some key
    else none

-- The prefix of a pattern with a star at its end.
unfoldable pub glob_prefix : String → Option String
glob_prefix pat =
    if ltb 0 (len pat) && str_eq (slice pat (len pat - 1) (len pat)) "*"
    then some (slice pat 0 (len pat - 1))
    else none

unfoldable pub has_prefix : String → Option String → Bool
has_prefix model none = false
has_prefix model (some prefix) = starts_with model prefix

unfoldable pub model_matches : String → String → Bool
unfolding glob_prefix has_prefix
model_matches model pat =
    not (str_eq pat "")
    && ((str_eq pat "*" || str_eq pat model) || has_prefix model (glob_prefix pat))

unfoldable pub models_allow : String → Option (List String) → Bool
unfolding model_matches any
models_allow model none = true
models_allow model (some pats) = str_eq model "" || any (model_matches model) pats

unfoldable pub model_allowed : Config → String → Bool
unfolding models_allow
model_allowed cfg model = models_allow model cfg.allowed_models

-- Costs are numbers of a small unit.
pub record KeyUsage : Type 0 where
  pub request_count : ℕ
  pub total_cost : ℕ
  pub total_tokens : ℕ
  pub last_used : ℕ
  pub error_count : ℕ

unfoldable pub usage_or_new : Option KeyUsage → KeyUsage
usage_or_new (some u) = u
usage_or_new none = record {
  request_count = 0;
  total_cost = 0;
  total_tokens = 0;
  last_used = 0;
  error_count = 0;
}

unfoldable pub used : ℕ → ℕ → ℕ → Bool → KeyUsage → KeyUsage
used now cost tokens err u = record {
  request_count = u.request_count + 1;
  total_cost = u.total_cost + cost;
  total_tokens = u.total_tokens + tokens;
  last_used = now;
  error_count = if err then u.error_count + 1 else u.error_count;
}

unfoldable pub record_usage : ℕ → String → ℕ → ℕ → Bool → Dict KeyUsage → Dict KeyUsage
unfolding used usage_or_new
record_usage now key cost tokens err usage =
    if str_eq key ""
    then usage
    else insert key (used now cost tokens err (usage_or_new (lookup key usage))) usage

unfoldable pub count_of : Option KeyUsage → ℕ
count_of none = 0
count_of (some u) = u.request_count

unfoldable pub usage_count : String → Dict KeyUsage → ℕ
unfolding count_of
usage_count key usage = count_of (lookup key usage)

unfoldable pub is_over_quota : Config → String → Dict KeyUsage → Bool
unfolding usage_count
is_over_quota cfg key usage =
    ltb 0 cfg.per_key_daily_quota && leb cfg.per_key_daily_quota (usage_count key usage)

-- The provider's answer to a request that is not streamed.
pub record LlmResponse : Type 0 where
  pub content : Text
  pub cost : ℕ
  pub tokens : ℕ

pub record BaseRequest : Type 0 where
  pub model : String
  pub stream : Bool

-- `body_size` is `none` where reading fails; `base` is `none` where the JSON is not valid.
pub record ProxyRequest : Type 0 where
  pub body_size : Option ℕ
  pub base : Option BaseRequest
  pub llm_model : String
  pub api_key : String
  pub mode : EnforcementMode
  pub has_messages : Bool
  pub at : ℕ

pub data ProxyReply (F : Type 0) : Type 0 where
  http_error : ℕ → ProxyReply F
  stream_events : List Sent → ProxyReply F
  answered : Reply F → ProxyReply F

-- What the request meets: the router's answer, its stream, or the provider's own stream where the
-- router has none, and the analysis of a text.
pub record World (F : Type 0) : Type 0 where
  pub analysis : Text → Option (Analyzed F)
  pub redact : Text → Text
  pub summarize : List (Finding F) → Text
  pub execute : ProxyRequest → Option LlmResponse
  pub stream_chunks : ProxyRequest → Option (List Chunk)
  pub direct_lines : ProxyRequest → List Text

module _ {F : Type 0} (world : World F) (cfg : Config) where
  -- `req.Model`, overridden by the header.
  unfoldable pub model_of : ProxyRequest → BaseRequest → String
  model_of r base = if str_eq r.llm_model "" then base.model else r.llm_model

  unfoldable pub executed :
      ProxyRequest → Option LlmResponse → Dict KeyUsage → ProxyReply F × Dict KeyUsage
  unfolding record_usage
  executed r none usage = (http_error 502, record_usage r.at r.api_key 0 0 true usage)
  executed r (some resp) usage = (
    answered (released_reply world.analysis world.redact world.summarize r.mode resp.content),
    record_usage r.at r.api_key resp.cost resp.tokens false usage,
  )

  -- Behind the tenant's checks.
  unfoldable pub routed : ProxyRequest → Bool → Dict KeyUsage → ProxyReply F × Dict KeyUsage
  unfolding executed handle_streaming
  routed r stream usage =
      if not r.has_messages
      then (http_error 400, usage)
      else if stream
      then (
        stream_events
            (handle_streaming world.analysis r.mode (world.stream_chunks r) (world.direct_lines r)),
        usage,
      )
      else executed r (world.execute r) usage

  unfoldable pub checked :
      ProxyRequest → Option BaseRequest → Dict KeyUsage → ProxyReply F × Dict KeyUsage
  unfolding routed model_of model_allowed is_over_quota
  checked r none usage = (http_error 400, usage)
  checked r (some base) usage =
      if not (model_allowed cfg (model_of r base))
      then (http_error 403, usage)
      else if is_over_quota cfg r.api_key usage
      then (http_error 429, usage)
      else routed r base.stream usage

  unfoldable pub within_size :
      ProxyRequest → Option ℕ → Dict KeyUsage → ProxyReply F × Dict KeyUsage
  unfolding checked
  within_size r none usage = (http_error 400, usage)
  within_size r (some size) usage =
      if ltb 10485760 size then (http_error 413, usage) else checked r r.base usage

  unfoldable pub handle_proxy_request : ProxyRequest → Dict KeyUsage → ProxyReply F × Dict KeyUsage
  unfolding within_size
  handle_proxy_request r usage = within_size r r.body_size usage
