-- ===== src/Logs/Types.antt =====
-- RequestLog of internal/models/models.go, which is a row of the table llm_requests.
use majordomo_gateway.Base.{ℕ, Bool, Option, Str, Dict}

-- An id is its text, a time a number of a clock; `none` is nil, or NULL.
pub record RequestLog (R : Type 0) : Type 0 where
  pub id : Str
  pub majordomo_api_key_id : Option Str
  pub provider_api_key_hash : Option Str
  pub provider_api_key_alias : Option Str
  pub provider : Str
  pub model : Str
  pub request_path : Str
  pub request_method : Str
  pub requested_at : ℕ
  pub responded_at : ℕ
  pub response_time_ms : ℕ
  pub input_tokens : ℕ
  pub output_tokens : ℕ
  pub cached_tokens : ℕ
  pub cache_creation_tokens : ℕ
  pub cache_creation_5m_tokens : ℕ
  pub cache_creation_1h_tokens : ℕ
  pub input_cost : R
  pub cached_cost : R
  pub cache_creation_cost : R
  pub output_cost : R
  pub total_cost : R
  pub status_code : ℕ
  pub error_message : Option Str
  pub raw_metadata : Dict Str
  pub indexed_metadata : Dict Str
  pub body_s3_key : Option Str
  pub model_alias_found : Bool
  pub deprecated_model_redirected : Bool
  pub original_model : Option Str
  pub trace_id : Option Str
  pub span_path : Option Str
  pub span_name : Option Str
  pub span_id : Option Str
  pub parent_span_id : Option Str
  pub routed_provider : Option Str
  pub routing_reason : Option Str
  pub routing_original_model : Option Str
