-- ===== src/Tests/Provider.antt =====
-- The providers, their paths and their parsers at concrete inputs.
use majordomo_gateway.Base.{refl, ◌≡◌, ◌≢◌, inr, [], ◌∷◌, lit, arith, Str, List, add_int}
use majordomo_gateway.Provider.Frames.{walk, walk_total, out_of_fuel, failed, bad_payload}
use majordomo_gateway.Provider.Usage.Anthropic.{AnthropicUsage, metrics_of, split_cache_creation}
use majordomo_gateway.Provider.Usage.Bedrock.{BedrockUsage}
use majordomo_gateway.Provider.Usage.Split.{IsConsistent, metrics_of-IsSplit}
use majordomo_gateway.Pricing.Cost.{IsSplit, non_cache_input, create_5m}

abbrev chat : Str
chat = lit "/chat/completions"

-- A frame of seventeen bytes, whose payload is one byte.
abbrev frame : Str
frame = 0 ∷ 0 ∷ 0 ∷ 17 ∷ 0 ∷ 0 ∷ 0 ∷ 0 ∷ 0 ∷ 0 ∷ 0 ∷ 0 ∷ 7 ∷ 0 ∷ 0 ∷ 0 ∷ 0 ∷ []

abbrev collect : List Str → Str → List Str
collect acc payload = payload ∷ acc

walk_total_example :
    (walk collect 18 frame [] ≢ out_of_fuel) × (walk collect 18 frame [] ≢ failed bad_payload)
walk_total_example = walk_total collect 18 frame [] (omega arith)

abbrev usage : AnthropicUsage
usage = record {
  input_tokens = 3;
  output_tokens = 1;
  cache_read_input_tokens = 4;
  cache_creation_input_tokens = 5;
  ephemeral_5m_input_tokens = 2;
  ephemeral_1h_input_tokens = 3;
}

usage-IsConsistent : IsConsistent usage
usage-IsConsistent = record {
  input = omega arith;
  output = omega arith;
  read = omega arith;
  creation = omega arith;
  five = omega arith;
  hour = omega arith;
  breakdown = inr refl;
}

metrics_of-IsSplit_example :
    IsSplit (metrics_of (lit "c") usage 1)
    × (non_cache_input (metrics_of (lit "c") usage 1) ≡ 3)
    × (add_int (create_5m (metrics_of (lit "c") usage 1)) (split_cache_creation usage).1 ≡ 5)
metrics_of-IsSplit_example = metrics_of-IsSplit (lit "c") usage 1 usage-IsConsistent

abbrev bedrock_usage : BedrockUsage
bedrock_usage = record {
  input_tokens = 3;
  output_tokens = 1;
  cache_read_input_tokens = 4;
  cache_write_input_tokens = 5;
}
