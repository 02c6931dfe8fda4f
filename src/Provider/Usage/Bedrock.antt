-- ===== src/Provider/Usage/Bedrock.antt =====
-- internal/provider/bedrock.go, but for the walk over the frames.

use majordomo_gateway.Base.{
  ℕ, suc, ◌-◌, ◌&&◌, Bool, Option, none, some, if◌then◌else◌, leb, ltb, not, is_pos, Str, lit,
  has_prefix, has_suffix, drop, take, length, add_int, [],
}
use majordomo_gateway.Models.{UsageMetrics}
use majordomo_gateway.Provider.Names.{bedrock}
use majordomo_gateway.Provider.Frames.{Walk, FrameError, done, failed, out_of_fuel, walk, uint32}
use majordomo_gateway.Provider.Usage.Counts.{counts}

pub record BedrockUsage : Type 0 where
  pub input_tokens : ℕ
  pub output_tokens : ℕ
  pub cache_read_input_tokens : ℕ
  pub cache_write_input_tokens : ℕ

unfoldable pub build_bedrock_metrics : BedrockUsage → UsageMetrics
unfolding add_int
build_bedrock_metrics u =
    counts bedrock []
      (add_int (add_int u.input_tokens u.cache_read_input_tokens) u.cache_write_input_tokens)
      u.output_tokens u.cache_read_input_tokens u.cache_write_input_tokens

-- `strings.LastIndex(rest, suffix)` at the end of `rest`, and not at its start.
unfoldable pub ends_after : Str → Str → Bool
ends_after rest suffix = has_suffix rest suffix && ltb (length suffix) (length rest)

unfoldable pub extract_bedrock_model_from_path : Str → Str
unfolding ends_after
extract_bedrock_model_from_path path =
    let rest = drop 7 path in
    let long = lit "/converse-stream" in
    let short = lit "/converse" in
    if not (has_prefix path (lit "/model/"))
    then []
    else if ends_after rest long
    then take (length rest - length long) rest
    else if ends_after rest short
    then take (length rest - length short) rest
    else []

unfoldable pub is_event_stream_response : Str → Bool
is_event_stream_response body =
    let total = uint32 body in
    let headers = uint32 (drop 4 body) in
    not (ltb (length body) 16)
    && leb 16 total
    && leb total (length body)
    && leb headers (total - 16)

-- What `ParseResponse` returns.
pub data Parsed : Type 0 where
  metrics : UsageMetrics → Parsed
  bad_frame : FrameError → Parsed
  bad_json : Parsed
  no_fuel : Parsed

-- json.Unmarshal of an event and of a whole response into the usage.
module _ (decode : Str → Option BedrockUsage) where
  -- The usage of the last event that has tokens.
  unfoldable pub keep_event : Option BedrockUsage → Str → Option BedrockUsage
  keep_event found payload = elim (decode payload) [
    | none ↦ found
    | some u ↦ if is_pos (add_int u.input_tokens u.output_tokens) then some u else found
  ]

  unfoldable pub parsed_of : Walk (Option BedrockUsage) → Parsed
  parsed_of (done none) = metrics (counts bedrock [] 0 0 0 0)
  parsed_of (done (some u)) = metrics (build_bedrock_metrics u)
  parsed_of (failed e) = bad_frame e
  parsed_of out_of_fuel = no_fuel

  unfoldable pub parse_event_stream_response : Str → Parsed
  unfolding parsed_of
  parse_event_stream_response body = parsed_of (walk keep_event (suc (length body)) body none)

  unfoldable pub parse_response : Str → Parsed
  unfolding parse_event_stream_response
  parse_response body =
      if is_event_stream_response body
      then parse_event_stream_response body
      else elim (decode body) [ none ↦ bad_json | some u ↦ metrics (build_bedrock_metrics u) ]
