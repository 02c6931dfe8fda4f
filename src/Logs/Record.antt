-- ===== src/Logs/Record.antt =====
-- logRequest, archiveBodies and extractProviderKeyInfo of internal/proxy/handler.go, and the object key
-- of internal/storage/storage.go: what is recorded of a request when it is over.
pub mod Laws
use majordomo_gateway.Base.{
  ℕ, ◌/◌, Bool, true, false, ◌&&◌, Option, none, some, List, [], ◌∷◌, ◌++◌, if◌then◌else◌, Str, lit,
  ◌==◌, Dict, lookup, is_empty, leb, take, Float, insert,
}
use majordomo_gateway.Models.{UsageMetrics, Cost}
use majordomo_gateway.Pricing.Types.{Service}
use majordomo_gateway.Pricing.Cost.{calculate}
use majordomo_gateway.Provider.Names.{bedrock}
use majordomo_gateway.Provider.Parser.{Parser, get_parser, extract_model}
use majordomo_gateway.Provider.Usage.Bedrock.{extract_bedrock_model_from_path}
use majordomo_gateway.Proxy.Exchange.{get_header}
use majordomo_gateway.Proxy.Headers.{Tracing, extract_custom_metadata, apply_run_tracing}
use majordomo_gateway.Proxy.Route.{Reason, RouteDecision}
use majordomo_gateway.Logs.Types.{RequestLog}

-- ProviderKeyInfo
pub record ProviderKeyInfo : Type 0 where
  pub hash : Option Str
  pub alias : Option Str

unfoldable pub extract_provider_key_info : (Str → Str) → Dict (List Str) → ProviderKeyInfo
extract_provider_key_info hash_api_key headers =
    let auth_header = get_header (lit "Authorization") headers in
    let alias = get_header (lit "X-Majordomo-Provider-Alias") headers in
    record {
      hash = if is_empty auth_header then none else some (hash_api_key auth_header);
      alias = if is_empty alias then none else some alias;
    }

-- The arguments of logRequest. The request body is the client's, the provider the one that the request
-- was forwarded to; a response time is in nanoseconds.
pub record Exchanged : Type 0 where
  pub request_id : Str
  pub api_key_id : Str
  pub key_info : ProviderKeyInfo
  pub provider : Str
  pub path : Str
  pub method : Str
  pub request_body : Str
  pub status : ℕ
  pub response_headers : Dict (List Str)
  pub response_body : Str
  pub response_time : ℕ
  pub requested_at : ℕ
  pub responded_at : ℕ
  pub headers : Dict Str
  pub original_model : Option Str
  pub decision : Option RouteDecision

-- What logRequest calls: the parsers of the responses, the decoder of a body's model, the UUID of an
-- interior span, and the text of a reason.
pub record LogCalls : Type 0 where
  pub parse_response : Parser → Str → Option UsageMetrics
  pub model_of : Str → Option Str
  pub interior_span_id : Str → Str → Str
  pub reason_text : Reason → Str

-- BodyPayload
pub record BodyPayload : Type 0 where
  pub request_id : Str
  pub timestamp : ℕ
  pub request_method : Str
  pub request_path : Str
  pub request_headers : Dict Str
  pub request_body : Str
  pub response_status : ℕ
  pub response_headers : Dict Str
  pub response_body : Str

-- GenerateKey; `date_path` is the day of the time, as 2006/01/02.
unfoldable pub generate_key : (ℕ → Str) → Str → Str → Str → ℕ → Str
generate_key date_path prefix api_key_id request_id ts =
    let key =
      date_path ts ++ (lit "/" ++ (api_key_id ++ (lit "/" ++ (request_id ++ lit ".json.gz")))) in
    if is_empty prefix then key else prefix ++ (lit "/" ++ key)

-- The loop of ExtractResponseHeaders.
unfoldable pub response_headers_into : Dict Str → Dict (List Str) → Dict Str
response_headers_into result [] = result
response_headers_into result ((key, []) ∷ h) = response_headers_into result h
response_headers_into result ((key, v ∷ values) ∷ h) = response_headers_into (insert key v result) h

unfoldable pub extract_response_headers : Dict (List Str) → Dict Str
unfolding response_headers_into
extract_response_headers h = response_headers_into [] h

-- The first 500 bytes of a failed response.
unfoldable pub error_message : ℕ → Str → Option Str
error_message status body = if leb 400 status then some (take 500 body) else none

module _ (calls : LogCalls) where
  -- The metrics of a response, or of one that cannot be parsed.
  unfoldable pub parsed_metrics : Exchanged → UsageMetrics
  unfolding extract_model
  parsed_metrics e = elim (calls.parse_response (get_parser e.provider) e.response_body) [
    | some metrics ↦ metrics
    | none ↦ record {
      provider = e.provider;
      model = extract_model calls.model_of (get_parser e.provider) e.request_body;
      input_tokens = 0;
      output_tokens = 0;
      cached_tokens = 0;
      cache_creation_tokens = 0;
      cache_creation_5m_tokens = 0;
      cache_creation_1h_tokens = 0;
      response_time = 0;
    }
  ]

  -- The model of the response, else of the request, else of a Bedrock path.
  unfoldable pub logged_model : Exchanged → Str → Str
  unfolding extract_model
  logged_model e model =
      let from_body =
        if is_empty model
        then extract_model calls.model_of (get_parser e.provider) e.request_body
        else model in
      if is_empty from_body && e.provider == bedrock
      then extract_bedrock_model_from_path e.path
      else from_body

  unfoldable pub logged_metrics : Exchanged → UsageMetrics
  unfolding parsed_metrics logged_model
  logged_metrics e =
      let metrics = parsed_metrics e in
      record metrics {
        model = logged_model e metrics.model;
        response_time = e.response_time;
        provider = e.provider;
      }

module _ (F : Float) (calls : LogCalls) where
  open F use {R}

  unfoldable pub log_of : Service R → Exchanged → RequestLog R
  unfolding logged_metrics error_message extract_custom_metadata apply_run_tracing calculate
  log_of s e =
      let metrics = logged_metrics calls e in
      let cost = calculate F s metrics in
      let tracing = apply_run_tracing calls.interior_span_id metrics.model e.request_id e.headers in
      let model_of_request = extract_model calls.model_of (get_parser e.provider) e.request_body in
      record {
        id = e.request_id;
        majordomo_api_key_id = some (e.api_key_id);
        provider_api_key_hash = e.key_info.hash;
        provider_api_key_alias = e.key_info.alias;
        provider = e.provider;
        model = metrics.model;
        request_path = e.path;
        request_method = e.method;
        requested_at = e.requested_at;
        responded_at = e.responded_at;
        response_time_ms = e.response_time / 1_000_000;
        input_tokens = metrics.input_tokens;
        output_tokens = metrics.output_tokens;
        cached_tokens = metrics.cached_tokens;
        cache_creation_tokens = metrics.cache_creation_tokens;
        cache_creation_5m_tokens = metrics.cache_creation_5m_tokens;
        cache_creation_1h_tokens = metrics.cache_creation_1h_tokens;
        input_cost = cost.input_cost;
        cached_cost = cost.cached_cost;
        cache_creation_cost = cost.cache_creation_cost;
        output_cost = cost.output_cost;
        total_cost = cost.total_cost;
        status_code = e.status;
        error_message = error_message e.status e.response_body;
        raw_metadata = extract_custom_metadata e.headers;
        indexed_metadata = [];
        body_s3_key = none;
        model_alias_found = cost.model_alias_found;
        deprecated_model_redirected = elim e.original_model [ none ↦ false | some m ↦ true ];
        original_model = e.original_model;
        trace_id = elim tracing [ none ↦ none | some t ↦ some (t.trace_id) ];
        span_path = elim tracing [ none ↦ none | some t ↦ some (t.span_path) ];
        span_name = elim tracing [ none ↦ none | some t ↦ some (t.span_name) ];
        span_id = elim tracing [ none ↦ none | some t ↦ some (t.span_id) ];
        parent_span_id = elim tracing [ none ↦ none | some t ↦ some (t.parent_span_id) ];
        routed_provider = elim e.decision [ none ↦ none | some d ↦ some (d.provider) ];
        routing_reason = elim e.decision [
          | none ↦ none
          | some d ↦ some (calls.reason_text d.reason)
        ];
        routing_original_model = elim e.decision [ none ↦ none | some d ↦ some model_of_request ];
      }

  unfoldable pub payload_of : Exchanged → BodyPayload
  unfolding extract_response_headers extract_custom_metadata
  payload_of e = record {
    request_id = e.request_id;
    timestamp = e.requested_at;
    request_method = e.method;
    request_path = e.path;
    request_headers = extract_custom_metadata e.headers;
    request_body = e.request_body;
    response_status = e.status;
    response_headers = extract_response_headers e.response_headers;
    response_body = e.response_body;
  }

  -- archiveBodies: `upload` is the store, where there is one, and says whether it took the object.
  unfoldable pub archive_bodies :
      Option (Str → BodyPayload → Bool) → (ℕ → Str) → Str → Exchanged → RequestLog R → RequestLog R
  unfolding payload_of generate_key
  archive_bodies store date_path prefix e log = elim store [
    | none ↦ log
    | some upload ↦
        let key = generate_key date_path prefix e.api_key_id e.request_id e.requested_at in
        if upload key (payload_of e) then record log { body_s3_key = some key } else log
  ]

  -- logRequest: what is handed to WriteRequestLog.
  unfoldable pub log_request :
      Service R → Option (Str → BodyPayload → Bool) → (ℕ → Str) → Str → Exchanged → RequestLog R
  unfolding log_of archive_bodies
  log_request s store date_path prefix e = archive_bodies store date_path prefix e (log_of s e)
