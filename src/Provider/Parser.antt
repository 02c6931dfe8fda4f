-- ===== src/Provider/Parser.antt =====
-- GetParser, extractModelFromRequest and ExtractModel of internal/provider.
use majordomo_gateway.Base.{◌||◌, Option, none, some, if◌then◌else◌, Str, lit, ◌==◌, is_empty, []}
use majordomo_gateway.Provider.Names.{
  openai, anthropic, gemini, gemini_openai, anthropic_openai, azure, bedrock, fireworks, together,
  baseten, bedrock_mantle,
}

pub data Parser : Type 0 where
  open_ai_parser anthropic_parser gemini_parser bedrock_parser : Parser

unfoldable pub get_parser : Str → Parser
get_parser p =
    if p == openai
      || p == azure
      || p == gemini_openai
      || p == anthropic_openai
      || p == fireworks
      || p == together
      || p == baseten
    then open_ai_parser
    else if p == anthropic || p == bedrock_mantle
    then anthropic_parser
    else if p == gemini
    then gemini_parser
    else if p == bedrock
    then bedrock_parser
    else open_ai_parser

-- `model_of` decodes the body's model, empty where the field is not there.
unfoldable pub extract_model_from_request : (Str → Option Str) → Str → Str
extract_model_from_request model_of body = elim (model_of body) [
  | none ↦ lit "unknown"
  | some model ↦ if is_empty model then lit "unknown" else model
]

-- The model of a Bedrock request is in its path.
unfoldable pub extract_model : (Str → Option Str) → Parser → Str → Str
unfolding extract_model_from_request
extract_model model_of open_ai_parser body = extract_model_from_request model_of body
extract_model model_of anthropic_parser body = extract_model_from_request model_of body
extract_model model_of gemini_parser body = extract_model_from_request model_of body
extract_model model_of bedrock_parser body = []
