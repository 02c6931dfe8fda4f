-- ===== src/Tests/Pricing.antt =====
-- The pricing service at concrete inputs.
use majordomo_gateway.Base.{
  ℕ, refl, ◌≡◌, ◌≢◌, true, none, some, [], ◌∷◌, lit, lookup, ◌==◌, Dict, insert, All,
}
use majordomo_gateway.Tests.Fixtures.{cost, catalog_file, endpoint_a, endpoint_b, service}
use majordomo_gateway.Models.{UsageMetrics}
use majordomo_gateway.Pricing.Types.{ModelPricing}
use majordomo_gateway.Pricing.Resolve.{price}
use majordomo_gateway.Pricing.Catalog.{
  parse_catalog, models_of, load_routes, load_entries, route_endpoint, append_endpoint,
}
use majordomo_gateway.Pricing.Catalog.Routes.{
  lookup-parse_catalog, parse_catalog-IsServable, extend, valid_endpoints, IsServable,
}
use majordomo_gateway.Pricing.Reload.{reload, fetched, failed, Remote}
use majordomo_gateway.Pricing.Reload.Laws.{reload_price}

named : lit "b" ≢ lit ""
unfolding lit
named h = cc

-- A local catalog of one model, in a map and under a provider.
abbrev local_models : Dict (ModelPricing ℕ)
local_models = (lit "m", cost 3_000_000) ∷ []

lookup-parse_catalog_example :
    lookup (lit "s") (parse_catalog catalog_file).2
    ≡ extend none (elim (lookup (lit "s") catalog_file.routes) [
      | none ↦ []
      | some entries ↦ valid_endpoints catalog_file.providers entries
    ])
unfolding lookup
lookup-parse_catalog_example = lookup-parse_catalog catalog_file (lit "s") (refl, tt)

parse_catalog-IsServable_example :
    All (IsServable catalog_file.providers) (endpoint_a ∷ endpoint_b ∷ [])
unfolding lookup lit ◌==◌ parse_catalog load_routes load_entries route_endpoint append_endpoint
    insert
parse_catalog-IsServable_example = parse_catalog-IsServable catalog_file (lit "s") (refl, tt) refl

abbrev unreachable : Remote ℕ
unreachable = failed

-- A remote feed that says something else of the same model.
abbrev remote : Remote ℕ
remote =
    fetched
      (record { id = lit "m"; vendor = lit "b"; input = 9; output = 9; input_cached = none } ∷ [])

reload_price_example :
    price (reload 0 true service (some catalog_file) remote).0 (lit "b") (lit "m")
    ≡ some (cost 2_000_000)
unfolding reload lookup lit ◌==◌ models_of
reload_price_example =
    reload_price 0 true service catalog_file remote (lit "b") (lit "m") refl named (refl, tt) refl

-- Twelve input tokens: three fresh, four read from the cache, five written to it.
abbrev metrics : UsageMetrics
metrics = record {
  provider = lit "b";
  model = lit "m";
  input_tokens = 12;
  output_tokens = 1;
  cached_tokens = 4;
  cache_creation_tokens = 5;
  cache_creation_5m_tokens = 2;
  cache_creation_1h_tokens = 3;
  response_time = 0;
}
