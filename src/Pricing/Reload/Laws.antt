-- ===== src/Pricing/Reload/Laws.antt =====
-- What a reload changes, and what it keeps.
use majordomo_gateway.Base.{
  refl, true, false, if◌then◌else◌, ◌==◌, ◌≡◌, ◌≢◌, ◌↔◌, ◌⊎◌, Dict, arith, List, insert, Bool,
  Distinct, Option, All, Str, none, ◌∷◌, [], false, insert-Distinct, Bool-cases, inl, is_some, some,
  lit, lookup, inr,
}
use majordomo_gateway.Pricing.Types.{ModelPricing, ProviderSection, CatalogFile, Service}
use majordomo_gateway.Pricing.Catalog.{load_models, models_of, load_providers, parse_catalog}
use majordomo_gateway.Pricing.Reload.{Remote, unset, failed, fetched, install, reload}
use majordomo_gateway.Pricing.Overlay.{overlay_catalog, lookup-overlay_catalog}
use majordomo_gateway.Pricing.Resolve.{price, resolve_of_provider}
use majordomo_gateway.Pricing.Catalog.Defaults.{parse_catalog_prices}

module _ {R : Type 0} where
  load_models-Distinct :
      (pricing own models : Dict (ModelPricing R))
      → Distinct pricing
      → Distinct own
      → Distinct (load_models pricing own models).0 × Distinct (load_models pricing own models).1
  unfolding load_models
  load_models-Distinct pricing own [] d e = (d, e)
  load_models-Distinct pricing own ((j, p) ∷ models) d e =
      load_models-Distinct (if is_some (lookup j pricing) then pricing else insert j p pricing)
        (insert j p own) models (ground (arith, insert-Distinct j p pricing d))
        (insert-Distinct j p own e)

  insert-All-Distinct :
      (k : Str) (v : Dict (ModelPricing R)) (m : Dict (Dict (ModelPricing R)))
      → Distinct v
      → All (λ e. Distinct e.1) m
      → All (λ e. Distinct e.1) (insert k v m)
  unfolding insert
  insert-All-Distinct k v [] d a = (d, tt)
  insert-All-Distinct k v ((j, w) ∷ m) d (dw, a) = elim (Bool-cases (j == k)) [
    | inl e ↦ rw e (d, a)
    | inr e ↦ rw e (dw, insert-All-Distinct k v m d a)
  ]

  load_providers-Distinct :
      (providers : Dict (ProviderSection R)) (pricing : Dict (ModelPricing R))
      (by_provider : Dict (Dict (ModelPricing R))) (provs : List Str)
      → Distinct pricing
      → Distinct by_provider
      → All (λ e. Distinct e.1) by_provider
      → let (pricing', by_provider') = load_providers providers pricing by_provider provs in
        Distinct pricing' × Distinct by_provider' × All (λ e. Distinct e.1) by_provider'
  unfolding load_providers
  load_providers-Distinct providers pricing by_provider [] d e a = (d, e, a)
  load_providers-Distinct providers pricing by_provider (q ∷ provs) d e a =
      let (d', own) = load_models-Distinct pricing [] (models_of providers q) d tt in
      load_providers-Distinct providers (load_models pricing [] (models_of providers q)).0
        (insert q (load_models pricing [] (models_of providers q)).1 by_provider) provs d'
        (insert-Distinct q _ by_provider e) (insert-All-Distinct q _ by_provider own a)

  -- The maps that parseCatalog builds hold no key twice.
  parse_catalog-Distinct :
      (cf : CatalogFile R)
      → Distinct (parse_catalog cf).0
        × Distinct (parse_catalog cf).1
        × All (λ e. Distinct e.1) (parse_catalog cf).1
  unfolding parse_catalog
  parse_catalog-Distinct cf = load_providers-Distinct cf.providers [] [] _ tt tt tt

module _ {R : Type 0} (zero_price : R) where
  -- A reload fails exactly when neither source gives prices, or when a refresh cannot reach the
  -- feed.
  reload_error_iff :
      (initial : Bool) (s : Service R) (file : Option (CatalogFile R)) (remote : Remote R)
      → ((reload zero_price initial s file remote).1 ≢ none) ↔ (
          ((remote ≡ unset) × (file ≡ none))
          ⊎ ((remote ≡ failed) × ((file ≡ none) ⊎ (initial ≡ false))))
  unfolding reload
  reload_error_iff initial s file unset = ground arith
  reload_error_iff initial s file failed = ground arith
  reload_error_iff initial s file (fetched entries) = ground arith

  -- A reload that fails leaves the service as it was.
  reload_error_keeps :
      (initial : Bool) (s : Service R) (file : Option (CatalogFile R)) (remote : Remote R)
      → (reload zero_price initial s file remote).1 ≢ none
      → (reload zero_price initial s file remote).0 ≡ s
  unfolding reload
  reload_error_keeps initial s file unset h = ground arith
  reload_error_keeps initial s file failed h = ground arith
  reload_error_keeps initial s file (fetched entries) h = absurd (h refl)

  install_price :
      (s : Service R) (pricing : Dict (ModelPricing R)) (by_provider : Dict (Dict (ModelPricing R)))
      (cf : CatalogFile R) (prov model : Str) {p : ModelPricing R}
      → prov ≢ lit ""
      → Distinct (models_of cf.providers prov)
      → lookup model (models_of cf.providers prov) ≡ some p
      → price (install zero_price s pricing by_provider (some cf)) prov model ≡ some p
  unfolding install price overlay_catalog
  install_price s pricing by_provider cf prov model named d h =
      let (local_d, by_d, inner_d) = parse_catalog-Distinct cf in
      resolve_of_provider (install zero_price s pricing by_provider (some cf)) prov model named (
        ground (
          arith,
          parse_catalog_prices cf prov model d h,
          lookup-overlay_catalog pricing by_provider (parse_catalog cf).0 (parse_catalog cf).1 prov
              model local_d by_d inner_d,
        ))

  -- After a reload that read the catalog file and did not fail, whatever the remote feed says,
  -- the price of a model under a named provider is the one that the file lists, where the
  -- provider's section holds no model twice.
  pub reload_price :
      (initial : Bool) (s : Service R) (cf : CatalogFile R) (remote : Remote R) (prov model : Str)
      {p : ModelPricing R}
      → (reload zero_price initial s (some cf) remote).1 ≡ none
      → prov ≢ lit ""
      → Distinct (models_of cf.providers prov)
      → lookup model (models_of cf.providers prov) ≡ some p
      → price (reload zero_price initial s (some cf) remote).0 prov model ≡ some p
  unfolding reload
  reload_price initial s cf unset prov model ok named d h =
      install_price s [] [] cf prov model named d h
  reload_price true s cf failed prov model ok named d h =
      install_price s [] [] cf prov model named d h
  reload_price false s cf failed prov model ok named d h = cc
  reload_price initial s cf (fetched entries) prov model ok named d h =
      install_price s _ _ cf prov model named d h

  -- The routing catalog comes from the local file alone: it is the parsed file after a reload that
  -- read it and did not fail, and is kept where the file could not be read or the reload failed.
  reload_catalog :
      (initial : Bool) (s : Service R) (file : Option (CatalogFile R)) (remote : Remote R)
      → (reload zero_price initial s file remote).0.catalog
        ≡ (elim (reload zero_price initial s file remote).1 [
          | some _ ↦ s.catalog
          | none ↦ elim file [ none ↦ s.catalog | some cf ↦ (parse_catalog cf).2 ]
        ])
  unfolding reload install
  reload_catalog initial s none unset = refl
  reload_catalog initial s none failed = refl
  reload_catalog initial s none (fetched entries) = refl
  reload_catalog initial s (some cf) unset = refl
  reload_catalog true s (some cf) failed = refl
  reload_catalog false s (some cf) failed = refl
  reload_catalog initial s (some cf) (fetched entries) = refl
