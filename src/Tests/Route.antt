-- ===== src/Tests/Route.antt =====
-- The provider router at concrete inputs.
use majordomo_gateway.Base.{
  ℕ, refl, ◌≡◌, ◌≢◌, ◌↔◌, Option, true, false, none, some, [], ◌∷◌, lit, lookup, ◌==◌, Str, List,
  Memᴰ, equal_fold, sort_by, if◌then◌else◌, insert_by, str_lt, filter,
}
use majordomo_gateway.Tests.Fixtures.{millionths, cost, endpoint_a, endpoint_b}
use majordomo_gateway.Pricing.Types.{Endpoint, ModelPricing}
use majordomo_gateway.Proxy.Health.{EndpointHealth, HealthSnapshot, is_healthy}
use majordomo_gateway.Proxy.Select.{select_by_cost, select_by_cost-Lands, Lands}
use majordomo_gateway.Proxy.Route.{
  DataPolicy, Env, RouteDecision, route_candidates, decision, cost_weighted, no_usable_endpoint,
  has_credential, no_compliant_endpoint, complies, panicked,
}
use majordomo_gateway.Proxy.Route.Laws.{
  IsChosen, route_candidates-IsChosen, route_candidates_errors,
}

abbrev prices : Str → Str → Option (ModelPricing ℕ)
prices provider model = some (if provider == lit "a" then cost 1_000_000 else cost 2_000_000)

-- One row: the provider a, with many errors.
abbrev row : EndpointHealth ℕ
row = record {
  provider = lit "a";
  model = lit "m";
  sample_count = 30;
  avg_latency_ms = 1;
  error_rate = 500_000;
}

abbrev no_rows : ℕ → Option (List (EndpointHealth ℕ))
no_rows since = none

abbrev one_row : ℕ → Option (List (EndpointHealth ℕ))
one_row since = some (row ∷ [])

abbrev pub env : Env millionths
env = record {
  candidates = λ model. if model == lit "s" then some (endpoint_a ∷ endpoint_b ∷ []) else none;
  price = prices;
  has_key = λ provider. some true;
  store = one_row;
  now = 1_000_000_000_000;
  later = 1_000_000_000_001;
  rand = 500_000;
}

abbrev strict : DataPolicy
strict = record { require_zdr = true; require_no_data_collection = true }

abbrev pub no_health : HealthSnapshot ℕ
no_health = record { by_key = []; fetched_at = 0 }

abbrev pub pool : List Endpoint
pool = endpoint_a ∷ endpoint_b ∷ []

abbrev pub chosen_b : RouteDecision
chosen_b = decision endpoint_b (cost_weighted 1 1)

route_candidates-IsChosen_example : IsChosen env no_health strict pool chosen_b
unfolding route_candidates select_by_cost ◌==◌ lit equal_fold is_healthy lookup sort_by insert_by
    filter
route_candidates-IsChosen_example = route_candidates-IsChosen env no_health strict pool refl

route_candidates_errors_example :
    ((route_candidates env no_health strict pool ≡ no_usable_endpoint)
      ↔ ((ep : Endpoint) → Memᴰ ep pool → has_credential env ep ≡ false))
    × ((route_candidates env no_health strict pool ≡ no_compliant_endpoint) ↔ (
        ((ep : Endpoint) × Memᴰ ep pool × (has_credential env ep ≡ true))
        × ((ep : Endpoint)
            → Memᴰ ep pool
            → has_credential env ep ≡ true
            → complies strict ep ≡ false)))
    × (route_candidates env no_health strict pool ≢ panicked)
route_candidates_errors_example = route_candidates_errors env no_health strict pool

select_by_cost-Lands_example :
    Lands millionths prices 249_999 0 (endpoint_a ∷ endpoint_b ∷ []) endpoint_a
unfolding select_by_cost ◌==◌ lit sort_by insert_by str_lt
select_by_cost-Lands_example = select_by_cost-Lands millionths prices 500_000 pool refl refl refl
