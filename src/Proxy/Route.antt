-- ===== src/Proxy/Route.antt =====
-- Route and hasCredential of internal/proxy/providerrouter.go. The router's own state is its health
-- snapshot; what it asks of others is a record.
pub mod Laws
use majordomo_gateway.Base.{
  ℕ, Bool, true, false, not, ◌&&◌, Option, none, some, List, [], ◌∷◌, if◌then◌else◌, Str, lit,
  equal_fold, Dict, Float, filter, length, is_empty,
}
use majordomo_gateway.Pricing.Types.{ModelPricing, Endpoint}
use majordomo_gateway.Proxy.Health.{EndpointHealth, HealthSnapshot, get_health, is_healthy}
use majordomo_gateway.Proxy.Select.{select_by_cost}

pub record DataPolicy : Type 0 where
  pub require_zdr : Bool
  pub require_no_data_collection : Bool

-- The rationale's text, by its numbers: how many endpoints were in the pool, and how many eligible.
pub data Reason : Type 0 where
  cost_weighted : ℕ → ℕ → Reason
  all_unhealthy : ℕ → Reason

pub record RouteDecision : Type 0 where
  pub provider : Str
  pub base_url : Str
  pub provider_model_id : Str
  pub reason : Reason
  pub request_defaults : Dict Str

pub data RouteResult : Type 0 where
  not_in_catalog no_usable_endpoint no_compliant_endpoint : RouteResult
  decided : RouteDecision → RouteResult
  -- the index error of `sorted[0]` on an empty pool
  panicked : RouteResult

-- CandidateSource, Pricer, KeyAvailability (an error is `none`), HealthStore, the clock before and
-- after a query of the store, and the random number.
pub record Env (F : Float) : Type 0 where
  pub candidates : Str → Option (List Endpoint)
  pub price : Str → Str → Option (ModelPricing F.R)
  pub has_key : Str → Option Bool
  pub store : ℕ → Option (List (EndpointHealth F.R))
  pub now : ℕ
  pub later : ℕ
  pub rand : F.R

-- Hard filter 2: the two tests of its loop.
unfoldable pub complies : DataPolicy → Endpoint → Bool
complies policy ep =
    not (policy.require_zdr && not ep.zdr)
    && not (policy.require_no_data_collection && not (equal_fold ep.data_collection (lit "deny")))

abbrev pub decision : Endpoint → Reason → RouteDecision
decision ep reason = record {
  provider = ep.provider;
  base_url = ep.base_url;
  provider_model_id = ep.provider_model_id;
  reason = reason;
  request_defaults = ep.request_defaults;
}

module _ {F : Float} (env : Env F) where
  unfoldable pub has_credential : Endpoint → Bool
  has_credential ep = elim (env.has_key ep.provider) [ none ↦ false | some ok ↦ ok ]

  -- The choice from the pool.
  unfoldable pub choose : List Endpoint → Reason → RouteResult
  choose pool reason = elim (select_by_cost F env.price env.rand pool) [
    | none ↦ panicked
    | some ep ↦ decided (decision ep reason)
  ]

  -- Hard filter 3, and the fallback to all eligible endpoints.
  unfoldable pub route_eligible : HealthSnapshot F.R → List Endpoint → RouteResult
  unfolding choose
  route_eligible health eligible =
      let healthy = filter (is_healthy F health) eligible in
      if is_empty healthy
      then choose eligible (all_unhealthy (length eligible))
      else choose healthy (cost_weighted (length healthy) (length eligible))

  -- The filters behind the catalog lookup.
  unfoldable pub route_candidates : HealthSnapshot F.R → DataPolicy → List Endpoint → RouteResult
  unfolding has_credential complies route_eligible
  route_candidates health policy candidates =
      let credentialed = filter has_credential candidates in
      let eligible = filter (complies policy) credentialed in
      if is_empty credentialed
      then no_usable_endpoint
      else if is_empty eligible
      then no_compliant_endpoint
      else route_eligible health eligible

  -- The new snapshot, and the result.
  unfoldable pub route :
      Option (HealthSnapshot F.R) → Str → DataPolicy → Option (HealthSnapshot F.R) × RouteResult
  unfolding route_candidates
  route snapshot model policy = elim (env.candidates model) [
    | none ↦ (snapshot, not_in_catalog)
    | some eps ↦
        let (snapshot', health) = get_health env.store env.now env.later snapshot in
        (snapshot', route_candidates health policy eps)
  ]
