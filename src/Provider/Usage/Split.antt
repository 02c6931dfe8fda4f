-- ===== src/Provider/Usage/Split.antt =====
-- What the parsers promise to the pricing: every input token falls into one bucket.
use majordomo_gateway.Base.{ℕ, ◌+◌, ◌<◌, ◌≡◌, ◌⊎◌, arith, add_int, int_mod, int_half, Str}
use majordomo_gateway.Pricing.Cost.{IsSplit, create_5m, non_cache_input}
use majordomo_gateway.Provider.Usage.Anthropic.{AnthropicUsage, metrics_of, split_cache_creation}
use majordomo_gateway.Provider.Usage.Bedrock.{BedrockUsage, build_bedrock_metrics}

-- What Anthropic documents of a usage record: Go ints, the total of cache writes not negative, and
-- the breakdown, where there is one, adds up to it.
pub record IsConsistent (u : AnthropicUsage) : Type 0 where
  pub input : u.input_tokens < int_mod
  pub output : u.output_tokens < int_mod
  pub read : u.cache_read_input_tokens < int_mod
  pub creation : u.cache_creation_input_tokens < int_half
  pub five : u.ephemeral_5m_input_tokens < int_half
  pub hour : u.ephemeral_1h_input_tokens < int_half
  pub breakdown :
      ((u.ephemeral_5m_input_tokens ≡ 0) × (u.ephemeral_1h_input_tokens ≡ 0))
      ⊎ (u.cache_creation_input_tokens ≡ u.ephemeral_5m_input_tokens + u.ephemeral_1h_input_tokens)

-- The metrics of an Anthropic response, streamed or not, meet what `Calculate` assumes, and the
-- tokens that it prices at the fresh input rate and as cache writes are those that Anthropic
-- reports, where the usage is consistent as Anthropic documents it.
pub metrics_of-IsSplit :
    (model : Str) (u : AnthropicUsage) (output : ℕ)
    → IsConsistent u
    → IsSplit (metrics_of model u output)
      × (non_cache_input (metrics_of model u output) ≡ u.input_tokens)
      × (add_int (create_5m (metrics_of model u output)) (split_cache_creation u).1
          ≡ u.cache_creation_input_tokens)
unfolding metrics_of non_cache_input create_5m
metrics_of-IsSplit model u output c = (ground arith, omega arith, ground arith)

-- The metrics of a Bedrock response meet what `Calculate` assumes, and the tokens that it prices
-- at the fresh input rate and as cache writes are those that Bedrock reports, where these are Go
-- ints and the cache writes are not negative.
build_bedrock_metrics-IsSplit :
    (u : BedrockUsage)
    → u.input_tokens < int_mod
    → u.cache_read_input_tokens < int_mod
    → u.cache_write_input_tokens < int_half
    → IsSplit (build_bedrock_metrics u)
      × (non_cache_input (build_bedrock_metrics u) ≡ u.input_tokens)
      × (create_5m (build_bedrock_metrics u) ≡ u.cache_write_input_tokens)
unfolding build_bedrock_metrics non_cache_input create_5m
build_bedrock_metrics-IsSplit u h k l = ground arith
