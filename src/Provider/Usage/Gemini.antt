-- ===== src/Provider/Usage/Gemini.antt =====
-- internal/provider/gemini.go.
use mathlib.Core.Option
use majordomo_gateway.Base.{ℕ, Option, List, [], ◌∷◌, if◌then◌else◌, Str, lit, has_prefix}
use majordomo_gateway.Models.{UsageMetrics}
use majordomo_gateway.Provider.Names.{gemini}
use majordomo_gateway.Provider.Usage.Counts.{counts}
use majordomo_gateway.Provider.Usage.Lines.{trim_space_left}

pub record GeminiResponse : Type 0 where
  pub prompt_token_count : ℕ
  pub candidates_token_count : ℕ
  pub total_token_count : ℕ
  pub cached_content_token_count : ℕ
  pub model_version : Str

unfoldable pub build_gemini_metrics : GeminiResponse → UsageMetrics
build_gemini_metrics r =
    counts gemini r.model_version r.prompt_token_count r.candidates_token_count
      r.cached_content_token_count 0

-- The last element of a list that is not empty.
unfoldable pub last_chunk : GeminiResponse → List GeminiResponse → GeminiResponse
last_chunk r [] = r
last_chunk r (r' ∷ rs) = last_chunk r' rs

unfoldable pub gemini_stream : List GeminiResponse → UsageMetrics
unfolding last_chunk build_gemini_metrics
gemini_stream [] = counts gemini [] 0 0 0 0
gemini_stream (r ∷ rs) = build_gemini_metrics (last_chunk r rs)

module _ (one : Str → Option GeminiResponse) (many : Str → Option (List GeminiResponse)) where
  unfoldable pub parse_response : Str → Option UsageMetrics
  unfolding gemini_stream
  parse_response body =
      let trimmed = trim_space_left body in
      if has_prefix trimmed (lit "[")
      then Option.map gemini_stream (many trimmed)
      else Option.map build_gemini_metrics (one body)
