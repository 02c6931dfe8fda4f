-- ===== src/Provider/Detect.antt =====
-- Detect, resolveExplicitProvider and detectFromPath of internal/provider/provider.go.
use majordomo_gateway.Base.{
  Option-cases, inl, inr, ◌≢◌, none, some, ◌&&◌, ◌||◌, arith, if◌then◌else◌, Str, lit, ◌==◌,
  has_prefix, has_suffix, contains, to_lower, equal_fold, Dict, lookup,
}
use majordomo_gateway.Provider.Names.{
  openai, anthropic, gemini, gemini_openai, anthropic_openai, azure, bedrock, fireworks, together,
  baseten, bedrock_mantle, majordomo, unknown, names,
}

pub record ProviderInfo : Type 0 where
  pub provider : Str
  pub base_url : Str

abbrev info : Str → Str → ProviderInfo
info p url = record { provider = p; base_url = url }

unfoldable pub resolve_explicit_provider : Str → ProviderInfo
resolve_explicit_provider name =
    let p = to_lower name in
    if p == openai
    then info openai (lit "https://api.openai.com")
    else if p == anthropic
    then info anthropic (lit "https://api.anthropic.com")
    else if p == gemini
    then info gemini (lit "https://generativelanguage.googleapis.com")
    else if p == gemini_openai
    then info gemini_openai (lit "https://generativelanguage.googleapis.com/v1beta/openai")
    else if p == anthropic_openai
    then info anthropic_openai (lit "https://api.anthropic.com")
    else if p == azure
    then info azure (lit "")
    else if p == bedrock
    then info bedrock (lit "")
    else if p == fireworks
    then info fireworks (lit "https://api.fireworks.ai/inference")
    else if p == together
    then info together (lit "https://api.together.xyz")
    else if p == baseten
    then info baseten (lit "https://inference.baseten.co")
    else if p == bedrock_mantle
    then info bedrock_mantle (lit "")
    else info unknown (lit "")

unfoldable pub detect_from_path : Str → ProviderInfo
detect_from_path path =
    if has_prefix path (lit "/v1/chat/completions")
      || has_prefix path (lit "/v1/completions")
      || has_prefix path (lit "/v1/embeddings")
      || has_prefix path (lit "/v1/responses")
    then info openai (lit "https://api.openai.com")
    else if has_prefix path (lit "/v1/messages")
    then info anthropic (lit "https://api.anthropic.com")
    else if contains path (lit "generateContent") || contains path (lit "streamGenerateContent")
    then info gemini (lit "https://generativelanguage.googleapis.com")
    else if has_prefix path (lit "/model/")
        && (has_suffix path (lit "/converse") || has_suffix path (lit "/converse-stream"))
    then info bedrock (lit "")
    else info unknown (lit "")

unfoldable pub detect : Str → Dict Str → ProviderInfo
detect path headers = elim (lookup (lit "x-majordomo-provider") headers) [
  | none ↦ detect_from_path path
  | some explicit ↦
      if equal_fold explicit majordomo
      then detect_from_path path
      else resolve_explicit_provider explicit
]

resolve_explicit-ne-majordomo : (name : Str) → (resolve_explicit_provider name).provider ≢ majordomo
unfolding resolve_explicit_provider names
resolve_explicit-ne-majordomo name = ground arith

detect_from_path-ne-majordomo : (path : Str) → (detect_from_path path).provider ≢ majordomo
unfolding detect_from_path names
detect_from_path-ne-majordomo path = ground arith

-- The routing opt-in is never taken for an upstream, whatever the path and the headers are.
detect-ne-majordomo : (path : Str) (headers : Dict Str) → (detect path headers).provider ≢ majordomo
unfolding detect
detect-ne-majordomo path headers =
    elim (Option-cases (lookup (lit "x-majordomo-provider") headers)) [
      | inl e ↦ rw (e, detect) (detect_from_path-ne-majordomo path)
      | inr (name, e) ↦
          ground (arith, resolve_explicit-ne-majordomo name, detect_from_path-ne-majordomo path)
    ]
