-- ===== src/LlmRouter/Pricing.antt =====
-- The price table (internal/llm/provider.go: `ModelInfo`, `PriceTable`, `SetPrice`). A price for 1000
-- tokens is in millionths of a dollar, which holds every price of the table; a cost is in half a
-- billionth of a dollar, so that it is twice tokens times price, and half of it, exactly.
use pre_code.Common.{
  ℕ, ◌+◌, ◌*◌, Bool, true, false, Option, none, some, List, [], ◌∷◌, String, Dict, lookup, insert,
  str_eq, ltb, if◌then◌else◌,
}

pub record ModelInfo : Type 0 where
  pub name : String
  pub provider : String
  pub input_cost : ℕ
  pub output_cost : ℕ
  pub max_tokens : ℕ
  pub capabilities : List String

-- `for _, c := range xs { if c == x { return true } }`
unfoldable pub contains : String → List String → Bool
contains x [] = false
contains x (y ∷ ys) = let rest = contains x ys in if str_eq y x then true else rest

unfoldable pub supports : String → ModelInfo → Bool
supports capability m = contains capability m.capabilities

unfoldable pub supports_all : ModelInfo → List String → Bool
unfolding supports
supports_all info [] = true
supports_all info (cap ∷ caps) =
    let rest = supports_all info caps in if supports cap info then rest else false

priced : String → String → ℕ → ℕ → ℕ → List String → String × ModelInfo
priced name provider input_cost output_cost max_tokens capabilities = (
  name,
  record {
    name = name;
    provider = provider;
    input_cost = input_cost;
    output_cost = output_cost;
    max_tokens = max_tokens;
    capabilities = capabilities;
  },
)

-- `PriceTable`, the built-in prices.
unfoldable pub price_table : Dict ModelInfo
unfolding priced
price_table =
    priced "claude-opus-4" "anthropic" 15000 75000 8192 ("tools" ∷ "vision" ∷ "reasoning" ∷ [])
    ∷ priced "claude-sonnet-4-20250514" "anthropic" 3000 15000 8192 ("tools" ∷ "vision" ∷ [])
    ∷ priced "claude-haiku-3.5" "anthropic" 800 4000 8192 ("tools" ∷ [])
    ∷ priced "gpt-4.5" "openai" 15000 60000 16384 ("tools" ∷ "vision" ∷ "reasoning" ∷ [])
    ∷ priced "gpt-4o" "openai" 2500 10000 16384 ("tools" ∷ "vision" ∷ [])
    ∷ priced "gpt-4o-mini" "openai" 150 600 16384 ("tools" ∷ [])
    ∷ priced "deepseek-r1" "deepseek" 550 2190 8192 ("reasoning" ∷ [])
    ∷ priced "gemini-2.5-pro" "gemini" 1250 10000 8192 ("tools" ∷ "vision" ∷ "reasoning" ∷ [])
    ∷ priced "gemini-2.0-flash" "gemini" 75 300 8192 ("tools" ∷ "vision" ∷ [])
    ∷ priced "mistral-large-latest" "mistral" 2000 6000 8192 ("tools" ∷ [])
    ∷ priced "mistral-small-latest" "mistral" 1000 3000 8192 ("tools" ∷ [])
    ∷ priced "llama-3.1-70b-versatile" "groq" 590 790 8192 ("tools" ∷ [])
    ∷ priced "llama-3.1-8b-instant" "groq" 50 80 8192 ("tools" ∷ [])
    ∷ priced "nvidia/llama-3.1-405b-instruct" "nvidia_nim" 3000 9000 8192
        ("tools" ∷ "reasoning" ∷ [])
    ∷ priced "nvidia/llama-3.1-70b-instruct" "nvidia_nim" 880 880 8192 ("tools" ∷ [])
    ∷ priced "meta/llama-3.1-8b-instruct" "nvidia_nim" 100 100 8192 ("tools" ∷ [])
    ∷ priced "command-r-plus" "cohere" 1500 2250 8192 ("tools" ∷ [])
    ∷ priced "command-r" "cohere" 150 150 8192 ("tools" ∷ [])
    ∷ []

-- `SetPrice`, on the table as a value.
unfoldable pub set_price : String → ModelInfo → Dict ModelInfo → Dict ModelInfo
set_price model info prices = insert model info prices

-- `maxTokensFor`, of what the table has for the model.
unfoldable pub max_tokens_of : Option ModelInfo → ℕ
max_tokens_of none = 4096
max_tokens_of (some info) = if ltb 0 info.max_tokens then info.max_tokens else 4096

unfoldable pub max_tokens_for : String → Dict ModelInfo → ℕ
unfolding max_tokens_of
max_tokens_for model prices = max_tokens_of (lookup model prices)

-- The first model of the provider in the order in which the map is visited; "" when it has none.
unfoldable pub default_model_for : String → Dict ModelInfo → String
default_model_for provider [] = ""
default_model_for provider ((model, info) ∷ prices) =
    let rest = default_model_for provider prices in
    if str_eq info.provider provider then model else rest

-- `(estInput/1000)*InputCostPer1K + (estOutput/1000)*OutputCostPer1K`
unfoldable pub est_cost_of : ℕ → ℕ → ModelInfo → ℕ
est_cost_of est_input est_output info =
    2 * (est_input * info.input_cost + est_output * info.output_cost)
