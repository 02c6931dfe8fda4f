-- ===== src/Provider/Usage/Anthropic.antt =====
-- internal/provider/anthropic.go.
use majordomo_gateway.Base.{
  ℕ, ◌&&◌, Option, none, some, List, [], ◌∷◌, if◌then◌else◌, eqb, Str, lit, ◌==◌, has_prefix,
  trim_prefix, add_int,
}
use majordomo_gateway.Models.{UsageMetrics}
use majordomo_gateway.Provider.Names.{anthropic}
use majordomo_gateway.Provider.Usage.Lines.{scan_lines, is_sse_response}
use mathlib.Core.Option

pub record AnthropicUsage : Type 0 where
  pub input_tokens : ℕ
  pub output_tokens : ℕ
  pub cache_read_input_tokens : ℕ
  pub cache_creation_input_tokens : ℕ
  pub ephemeral_5m_input_tokens : ℕ
  pub ephemeral_1h_input_tokens : ℕ

pub record AnthropicResponse : Type 0 where
  pub model : Str
  pub usage : AnthropicUsage

pub record Decoder : Type 0 where
  pub response : Str → Option AnthropicResponse
  -- a message_start event: the model and usage of its message
  pub message_start : Str → Option AnthropicResponse
  -- a message_delta event: its output tokens
  pub message_delta : Str → Option ℕ

unfoldable pub split_cache_creation : AnthropicUsage → ℕ × ℕ
split_cache_creation u =
    if eqb u.ephemeral_5m_input_tokens 0 && eqb u.ephemeral_1h_input_tokens 0
    then (u.cache_creation_input_tokens, 0)
    else (u.ephemeral_5m_input_tokens, u.ephemeral_1h_input_tokens)

unfoldable pub total_input : AnthropicUsage → ℕ
unfolding add_int
total_input u =
    add_int (add_int u.input_tokens u.cache_read_input_tokens) u.cache_creation_input_tokens

-- The metrics of a usage record, with the output tokens apart.
unfoldable pub metrics_of : Str → AnthropicUsage → ℕ → UsageMetrics
unfolding split_cache_creation total_input
metrics_of model u output_tokens =
    let (five_min, one_hour) = split_cache_creation u in
    record {
      provider = anthropic;
      model = model;
      input_tokens = total_input u;
      output_tokens = output_tokens;
      cached_tokens = u.cache_read_input_tokens;
      cache_creation_tokens = u.cache_creation_input_tokens;
      cache_creation_5m_tokens = five_min;
      cache_creation_1h_tokens = one_hour;
      response_time = 0;
    }

unfoldable pub build_metrics : AnthropicResponse → UsageMetrics
unfolding metrics_of
build_metrics resp = metrics_of resp.model resp.usage resp.usage.output_tokens

-- The variables of the scan.
pub record Scan : Type 0 where
  pub model : Str
  pub usage : AnthropicUsage
  pub output_tokens : ℕ
  pub current_event : Str

abbrev pub no_usage : AnthropicUsage
no_usage = record {
  input_tokens = 0;
  output_tokens = 0;
  cache_read_input_tokens = 0;
  cache_creation_input_tokens = 0;
  ephemeral_5m_input_tokens = 0;
  ephemeral_1h_input_tokens = 0;
}

abbrev pub start : Scan
start = record { model = []; usage = no_usage; output_tokens = 0; current_event = [] }

module _ (d : Decoder) where
  unfoldable pub note_event : Scan → Str → Scan
  note_event st text =
      if st.current_event == lit "message_start"
      then elim (d.message_start text) [
        | none ↦ st
        | some r ↦ record st { model = r.model; usage = r.usage }
      ]
      else if st.current_event == lit "message_delta"
      then elim (d.message_delta text) [ none ↦ st | some n ↦ record st { output_tokens = n } ]
      else st

  -- One round of the scan.
  unfoldable pub note_line : Scan → Str → Scan
  unfolding note_event
  note_line st line =
      if has_prefix line (lit "event: ")
      then record st { current_event = trim_prefix line (lit "event: ") }
      else if has_prefix line (lit "data: ")
      then note_event st (trim_prefix line (lit "data: "))
      else st

  unfoldable pub note_lines : Scan → List Str → Scan
  note_lines st [] = st
  note_lines st (line ∷ lines) = note_lines (note_line st line) lines

  unfoldable pub parse_streaming_response : Str → UsageMetrics
  unfolding note_lines note_line metrics_of
  parse_streaming_response body =
      let st = note_lines start (scan_lines body) in metrics_of st.model st.usage st.output_tokens

  unfoldable pub parse_response : Str → Option UsageMetrics
  unfolding parse_streaming_response
  parse_response body =
      if is_sse_response body
      then some (parse_streaming_response body)
      else Option.map build_metrics (d.response body)
