-- ===== src/Models.antt =====
-- internal/models/models.go: the token counts of a response, and its cost.
use majordomo_gateway.Base.{ℕ, Bool, Str}

-- The counts are Go ints, as bit patterns; the response time is in nanoseconds.
pub record UsageMetrics : Type 0 where
  pub provider : Str
  pub model : Str
  pub input_tokens : ℕ
  pub output_tokens : ℕ
  pub cached_tokens : ℕ
  pub cache_creation_tokens : ℕ
  pub cache_creation_5m_tokens : ℕ
  pub cache_creation_1h_tokens : ℕ
  pub response_time : ℕ

pub record Cost (R : Type 0) : Type 0 where
  pub input_cost : R
  pub cached_cost : R
  pub cache_creation_cost : R
  pub output_cost : R
  pub total_cost : R
  pub model_alias_found : Bool
