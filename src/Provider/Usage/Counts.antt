-- ===== src/Provider/Usage/Counts.antt =====
-- The metrics of the providers that report no breakdown of cache writes.
use majordomo_gateway.Base.{ℕ, Str}
use majordomo_gateway.Models.{UsageMetrics}

abbrev pub counts : Str → Str → ℕ → ℕ → ℕ → ℕ → UsageMetrics
counts provider model input output cached creation = record {
  provider = provider;
  model = model;
  input_tokens = input;
  output_tokens = output;
  cached_tokens = cached;
  cache_creation_tokens = creation;
  cache_creation_5m_tokens = creation;
  cache_creation_1h_tokens = 0;
  response_time = 0;
}
