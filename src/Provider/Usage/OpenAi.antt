-- ===== src/Provider/Usage/OpenAi.antt =====
-- internal/provider/openai.go.
use mathlib.Core.Option
use majordomo_gateway.Base.{
  ℕ, ◌||◌, Bool, Option, none, some, List, [], ◌∷◌, if◌then◌else◌, is_pos, Str, lit, ◌==◌,
  has_prefix, trim_prefix, ◌>>=◌,
}
use majordomo_gateway.Models.{UsageMetrics}
use majordomo_gateway.Provider.Names.{openai}
use majordomo_gateway.Provider.Usage.Lines.{scan_lines, is_sse_response}

pub record OpenAiUsage : Type 0 where
  pub prompt_tokens : ℕ
  pub completion_tokens : ℕ
  pub prompt_cached_tokens : ℕ
  pub input_tokens : ℕ
  pub output_tokens : ℕ
  pub input_cached_tokens : ℕ
  pub reasoning_tokens : ℕ
  pub total_tokens : ℕ

pub record OpenAiResponse : Type 0 where
  pub model : Str
  pub usage : OpenAiUsage

-- The fields that the streaming parser looks at in a chunk; a null one is absent.
pub record Peek : Type 0 where
  pub model : Str
  pub usage : Option Str
  pub response : Option Str

pub record Nested : Type 0 where
  pub model : Str
  pub usage : Option Str

-- json.Unmarshal into each of the three; `none` is an error.
pub record Decoder : Type 0 where
  pub response : Str → Option OpenAiResponse
  pub peek : Str → Option Peek
  pub nested : Str → Option Nested

unfoldable pub build_open_ai_metrics : OpenAiResponse → UsageMetrics
build_open_ai_metrics resp =
    let u = resp.usage in
    let responses_api = is_pos u.input_tokens || is_pos u.output_tokens in
    record {
      provider = openai;
      model = resp.model;
      input_tokens = if responses_api then u.input_tokens else u.prompt_tokens;
      output_tokens = if responses_api then u.output_tokens else u.completion_tokens;
      cached_tokens = if responses_api then u.input_cached_tokens else u.prompt_cached_tokens;
      cache_creation_tokens = 0;
      cache_creation_5m_tokens = 0;
      cache_creation_1h_tokens = 0;
      response_time = 0;
    }

-- A pointer to a raw value that is not "null".
unfoldable pub is_present : Option Str → Bool
is_present none = Bool.false
is_present (some raw) = if raw == lit "null" then Bool.false else Bool.true

-- The two variables of the scan.
pub record Scan : Type 0 where
  pub last_model : Str
  pub usage_chunk : Option Str

abbrev pub start : Scan
start = record { last_model = []; usage_chunk = none }

unfoldable pub named : Str → Str → Str
named model last = if model == lit "" then last else model

module _ (d : Decoder) where
  -- The part of a round that looks inside "response".
  unfoldable pub note_nested : Option Str → Scan → Scan
  unfolding named is_present
  note_nested none st = st
  note_nested (some raw) st = elim (d.nested raw) [
    | none ↦ st
    | some n ↦ record st {
      last_model = named n.model st.last_model;
      usage_chunk = if is_present n.usage then some raw else st.usage_chunk;
    }
  ]

  -- One round of the scan.
  unfoldable pub note_line : Scan → Str → Scan
  unfolding note_nested
  note_line st line =
      let text = trim_prefix line (lit "data: ") in
      if has_prefix line (lit "data: ")
      then (if text == lit "[DONE]" then st else elim (d.peek text) [
        | none ↦ st
        | some p ↦ note_nested p.response (record st {
          last_model = named p.model st.last_model;
          usage_chunk = if is_present p.usage then some text else st.usage_chunk;
        })
      ])
      else st

  unfoldable pub note_lines : Scan → List Str → Scan
  note_lines st [] = st
  note_lines st (line ∷ lines) = note_lines (note_line st line) lines

  unfoldable pub no_usage : Str → UsageMetrics
  no_usage model = record {
    provider = openai;
    model = model;
    input_tokens = 0;
    output_tokens = 0;
    cached_tokens = 0;
    cache_creation_tokens = 0;
    cache_creation_5m_tokens = 0;
    cache_creation_1h_tokens = 0;
    response_time = 0;
  }

  unfoldable pub finish_stream : Scan → UsageMetrics
  unfolding no_usage
  finish_stream st = elim (st.usage_chunk >>= d.response) [
    | none ↦ no_usage st.last_model
    | some resp ↦ build_open_ai_metrics resp
  ]

  -- It never fails.
  unfoldable pub parse_streaming_response : Str → UsageMetrics
  unfolding note_lines note_line finish_stream
  parse_streaming_response body = finish_stream (note_lines start (scan_lines body))

  unfoldable pub parse_response : Str → Option UsageMetrics
  unfolding parse_streaming_response
  parse_response body =
      if is_sse_response body
      then some (parse_streaming_response body)
      else Option.map build_open_ai_metrics (d.response body)
