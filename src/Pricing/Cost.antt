-- ===== src/Pricing/Cost.antt =====
-- Calculate of internal/pricing/service.go: the token buckets, and their prices.
use majordomo_gateway.Base.{
  ℕ, ◌+◌, ◌%◌, ◌<◌, ◌≡◌, ◌⊎◌, true, false, none, some, ◌&&◌, if◌then◌else◌, eqb, Float, add_int,
  sub_int, is_pos, int_mod, int_half,
}
use majordomo_gateway.Models.{UsageMetrics, Cost}
use majordomo_gateway.Pricing.Types.{ModelPricing, Service}
use majordomo_gateway.Pricing.Resolve.{resolve}

-- The guard that puts a cache-creation total without a breakdown into the 5-minute bucket.
unfoldable pub create_5m : UsageMetrics → ℕ
unfolding add_int
create_5m m =
    if eqb (add_int m.cache_creation_5m_tokens m.cache_creation_1h_tokens) 0
      && is_pos m.cache_creation_tokens
    then m.cache_creation_tokens
    else m.cache_creation_5m_tokens

unfoldable pub non_cache_input : UsageMetrics → ℕ
unfolding sub_int
non_cache_input m = sub_int (sub_int m.input_tokens m.cached_tokens) m.cache_creation_tokens

module _ (F : Float) where
  open F use {R, ratio, of_int, add, mul, div}

  abbrev pub zero : R
  zero = ratio 0 1

  -- `float64(tokens) * price / 1_000_000`
  unfoldable pub per_million : ℕ → R → R
  per_million tokens price = div (mul (of_int tokens) price) (ratio 1_000_000 1)

  unfoldable pub no_cost : Cost R
  no_cost = record {
    input_cost = zero;
    cached_cost = zero;
    cache_creation_cost = zero;
    output_cost = zero;
    total_cost = zero;
    model_alias_found = false;
  }

  unfoldable pub cost_of : ModelPricing R → UsageMetrics → Cost R
  unfolding per_million create_5m non_cache_input
  cost_of pricing m =
      let input_cost = per_million (non_cache_input m) pricing.input_price_per_million in
      let cached_cost = per_million m.cached_tokens pricing.cached_price_per_million in
      let cache_creation_cost =
        div
          (mul
            (add (mul (of_int (create_5m m)) (ratio 125 100))
              (mul (of_int m.cache_creation_1h_tokens) (ratio 2 1)))
            pricing.input_price_per_million)
          (ratio 1_000_000 1) in
      let output_cost = per_million m.output_tokens pricing.output_price_per_million in
      record {
        input_cost = input_cost;
        cached_cost = cached_cost;
        cache_creation_cost = cache_creation_cost;
        output_cost = output_cost;
        total_cost = add (add (add input_cost cached_cost) cache_creation_cost) output_cost;
        model_alias_found = true;
      }

  unfoldable pub calculate : Service R → UsageMetrics → Cost R
  unfolding cost_of no_cost
  calculate s m = elim (resolve s m.provider m.model) [
    | none ↦ no_cost
    | some pricing ↦ cost_of pricing m
  ]

-- What a parser promises of the counts: each is a Go int, and the total of cache writes is that of
-- the two buckets, or comes without them and is not negative.
pub record IsSplit (m : UsageMetrics) : Type 0 where
  pub input : m.input_tokens < int_mod
  pub cached : m.cached_tokens < int_mod
  pub five : m.cache_creation_5m_tokens < int_mod
  pub hour : m.cache_creation_1h_tokens < int_mod
  pub creation : m.cache_creation_tokens < int_mod
  pub split :
      (m.cache_creation_tokens
        ≡ (m.cache_creation_5m_tokens + m.cache_creation_1h_tokens) % int_mod)
      ⊎ ((m.cache_creation_5m_tokens ≡ 0)
          × (m.cache_creation_1h_tokens ≡ 0)
          × (m.cache_creation_tokens < int_half))
