-- ===== src/Pricing/Catalog.antt =====
-- parseCatalog of internal/pricing/service.go, from the decoded file on. The children prove what
-- the routes and the prices are.
pub mod Routes
pub mod Defaults
use majordomo_gateway.Base.{
  Option, none, some, Bool, List, [], ◌∷◌, ◌++◌, if◌then◌else◌, is_some, Str, lit, Dict, lookup,
  insert, keys, sort_strings,
}
use majordomo_gateway.Pricing.Types.{
  ModelPricing, Endpoint, RouteEntry, ProviderSection, CatalogFile,
}

-- `catalog[slug] = append(catalog[slug], …)`
unfoldable pub append_endpoint : Str → Endpoint → Dict (List Endpoint) → Dict (List Endpoint)
append_endpoint slug ep catalog =
    insert slug (elim (lookup slug catalog) [ none ↦ ep ∷ [] | some eps ↦ eps ++ ep ∷ [] ]) catalog

module _ {R : Type 0} where
  -- `for model, entry := range sec.Models`: the model-default map and the provider's own
  unfoldable pub load_models :
      Dict (ModelPricing R)
      → Dict (ModelPricing R)
      → Dict (ModelPricing R)
      → Dict (ModelPricing R) × Dict (ModelPricing R)
  load_models pricing own [] = (pricing, own)
  load_models pricing own ((model, mp) ∷ models) =
      load_models (if is_some (lookup model pricing) then pricing else insert model mp pricing)
        (insert model mp own) models

  -- `cf.Providers[prov].Models`, empty for a missing key
  unfoldable pub models_of : Dict (ProviderSection R) → Str → Dict (ModelPricing R)
  models_of providers prov = elim (lookup prov providers) [ none ↦ [] | some sec ↦ sec.models ]

  -- `for _, prov := range provNames`
  unfoldable pub load_providers :
      Dict (ProviderSection R)
      → Dict (ModelPricing R)
      → Dict (Dict (ModelPricing R))
      → List Str
      → Dict (ModelPricing R) × Dict (Dict (ModelPricing R))
  load_providers providers pricing by_provider [] = (pricing, by_provider)
  load_providers providers pricing by_provider (prov ∷ provs) =
      let (pricing', own) = load_models pricing [] (models_of providers prov) in
      load_providers providers pricing' (insert prov own by_provider) provs

  -- The checks and the record of one route entry; `none` where the loop continues with a warning.
  unfoldable pub route_endpoint : Dict (ProviderSection R) → RouteEntry → Option Endpoint
  route_endpoint providers re = elim (lookup re.provider providers) [
    | none ↦ none
    | some sec ↦
        if is_some (lookup re.model sec.models)
        then (if is_some (lookup (lit "model") re.request_defaults)
            then none
            else some (record {
              provider = re.provider;
              base_url = sec.base_url;
              provider_model_id = re.model;
              region = sec.region;
              zdr = sec.zdr;
              data_collection = sec.data_collection;
              request_defaults = re.request_defaults;
            }))
        else none
  ]

  unfoldable pub load_entries :
      Dict (ProviderSection R) → Str → List RouteEntry → Dict (List Endpoint) → Dict (List Endpoint)
  load_entries providers slug [] catalog = catalog
  load_entries providers slug (re ∷ entries) catalog =
      load_entries providers slug entries (elim (route_endpoint providers re) [
        | none ↦ catalog
        | some ep ↦ append_endpoint slug ep catalog
      ])

  unfoldable pub load_routes :
      Dict (ProviderSection R)
      → Dict (List RouteEntry)
      → Dict (List Endpoint)
      → Dict (List Endpoint)
  load_routes providers [] catalog = catalog
  load_routes providers ((slug, entries) ∷ routes) catalog =
      load_routes providers routes (load_entries providers slug entries catalog)

  unfoldable pub parse_catalog :
      CatalogFile R → Dict (ModelPricing R) × Dict (Dict (ModelPricing R)) × Dict (List Endpoint)
  parse_catalog cf =
      let (pricing, by_provider) =
        load_providers cf.providers [] [] (sort_strings (keys cf.providers)) in
      (pricing, by_provider, load_routes cf.providers cf.routes [])
