-- ===== src/Pricing/Catalog/Defaults.antt =====
-- The prices that parseCatalog builds: per provider those of its section, and by default those of
-- the first provider, in the order of the names, that lists the model.
use mathlib.Core.List.Memᴰ.{head, tail}
use majordomo_gateway.Base.{
  All-Memᴰ, Memᴰ, ◌≢◌, ◌≡◌, refl, Option, none, List, [], ◌∷◌, arith, if◌then◌else◌, is_some, Str,
  eq_iff, Dict, lookup, insert, lookup-insert, or_else, Distinct, Sorted, All, str_lt, false, some,
  ◌≢◌, Option-cases, ◌⊎◌, lookup_in, inl, inr, Bool-cases, str_lt_irrefl, keys, ◌==◌, sort_strings,
  sort_strings-Sorted, sort_by-Memᴰ, ◌∙◌, sym,
}
use majordomo_gateway.Pricing.Types.{ModelPricing, ProviderSection}
use majordomo_gateway.Pricing.Catalog.{
  load_models, models_of, load_providers, parse_catalog, CatalogFile,
}

module _ {R : Type 0} where
  lookup-load_models_own :
      (pricing own models : Dict (ModelPricing R)) (k : Str)
      → Distinct models
      → lookup k (load_models pricing own models).1 ≡ or_else (lookup k models) (lookup k own)
  unfolding load_models lookup
  lookup-load_models_own pricing own [] k d = refl
  lookup-load_models_own pricing own ((j, p) ∷ models) k (fresh, d) = ground (
    arith,
    lookup-load_models_own (if is_some (lookup j pricing) then pricing else insert j p pricing)
        (insert j p own) models k d,
    lookup-insert j k p own,
    eq_iff j k,
  )

  own_models :
      (pricing models : Dict (ModelPricing R)) (k : Str)
      → Distinct models
      → lookup k (load_models pricing [] models).1 ≡ lookup k models
  unfolding lookup
  own_models pricing models k d = ground (arith, lookup-load_models_own pricing [] models k d)

  lookup-load_models :
      (pricing own models : Dict (ModelPricing R)) (k : Str)
      → lookup k (load_models pricing own models).0 ≡ or_else (lookup k pricing) (lookup k models)
  unfolding load_models lookup
  lookup-load_models pricing own [] k = ground arith
  lookup-load_models pricing own ((j, p) ∷ models) k = ground (
    arith,
    lookup-load_models (if is_some (lookup j pricing) then pricing else insert j p pricing)
        (insert j p own) models k,
    lookup-insert j k p pricing,
    eq_iff j k,
  )

  -- The price in the first section, in the given order, that lists the model.
  first_listing : Dict (ProviderSection R) → List Str → Str → Option (ModelPricing R)
  first_listing providers [] k = none
  first_listing providers (prov ∷ provs) k =
      or_else (lookup k (models_of providers prov)) (first_listing providers provs k)

  weaken :
      (providers : Dict (ProviderSection R)) (k : Str) (x : Str) (provs : List Str)
      → All (λ q. str_lt q x ≡ false) provs
      → All (λ q. lookup k (models_of providers q) ≢ none → str_lt q x ≡ false) provs
  weaken providers k x [] a = tt
  weaken providers k x (q ∷ provs) (h, a) = (λ _. h, weaken providers k x provs a)

  lookup-load_providers :
      (providers : Dict (ProviderSection R)) (pricing : Dict (ModelPricing R))
      (by_provider : Dict (Dict (ModelPricing R))) (provs : List Str) (k : Str)
      → lookup k (load_providers providers pricing by_provider provs).0
        ≡ or_else (lookup k pricing) (first_listing providers provs k)
  unfolding load_providers first_listing
  lookup-load_providers providers pricing by_provider [] k = ground arith
  lookup-load_providers providers pricing by_provider (prov ∷ provs) k =
      let (pricing', own) = load_models pricing [] (models_of providers prov) in
      ground (
        arith,
        lookup-load_providers providers pricing' (insert prov own by_provider) provs k,
        lookup-load_models pricing [] (models_of providers prov) k,
      )

  lookup_in-insert :
      (q prov k : Str) (own : Dict (ModelPricing R)) (m : Dict (Dict (ModelPricing R)))
      → lookup_in prov k (insert q own m) ≡ (if q == prov then lookup k own else lookup_in prov k m)
  unfolding lookup_in
  lookup_in-insert q prov k own m = ground (arith, lookup-insert q prov own m, eq_iff q prov)

  -- One round loads the provider, or leaves its turn ahead or behind as it was.
  still_loaded :
      (q prov k : Str) (provs : List Str) (own : Dict (ModelPricing R))
      (m : Dict (Dict (ModelPricing R))) (target : Option (ModelPricing R))
      → (q ≡ prov → lookup k own ≡ target)
      → Memᴰ prov (q ∷ provs) ⊎ (lookup_in prov k m ≡ target)
      → Memᴰ prov provs ⊎ (lookup_in prov k (insert q own m) ≡ target)
  still_loaded q prov k provs own m target now (inl (head same)) =
      inr (ground (arith, lookup_in-insert q prov k own m, eq_iff q prov, now (sym same)))
  still_loaded q prov k provs own m target now (inl (tail later)) = inl later
  still_loaded q prov k provs own m target now (inr e) = inr (
      ground (arith, lookup_in-insert q prov k own m, eq_iff q prov, λ (same : q ≡ prov). now same))

  lookup_in-load_providers :
      (providers : Dict (ProviderSection R)) (pricing : Dict (ModelPricing R))
      (by_provider : Dict (Dict (ModelPricing R))) (provs : List Str) (prov k : Str)
      → Distinct (models_of providers prov)
      → Memᴰ prov provs ⊎ (lookup_in prov k by_provider ≡ lookup k (models_of providers prov))
      → lookup_in prov k (load_providers providers pricing by_provider provs).1
        ≡ lookup k (models_of providers prov)
  unfolding load_providers
  lookup_in-load_providers providers pricing by_provider [] prov k d (inr e) = e
  lookup_in-load_providers providers pricing by_provider [] prov k d (inl m) = elim m [ ]
  lookup_in-load_providers providers pricing by_provider (q ∷ provs) prov k d h =
      let own = (load_models pricing [] (models_of providers q)).1 in
      lookup_in-load_providers providers (load_models pricing [] (models_of providers q)).0
        (insert q own by_provider) provs prov k d
        (still_loaded q prov k provs own by_provider _
          (λ e. rw e (own_models pricing (models_of providers prov) k d)) h)

  -- What the loop over the sorted names finds is the entry of the least provider that has one.
  first_listing_least :
      (providers : Dict (ProviderSection R)) (provs : List Str) (k : Str) {p : ModelPricing R}
      → Sorted str_lt provs
      → first_listing providers provs k ≡ some p
      → (prov : Str) × (lookup k (models_of providers prov) ≡ some p)
        × All (λ q. lookup k (models_of providers q) ≢ none → str_lt q prov ≡ false) provs
  unfolding first_listing
  first_listing_least providers [] k s h = cc
  first_listing_least providers (x ∷ provs) k (a, s) h =
      elim (Option-cases (lookup k (models_of providers x))) [
        | inl e ↦
            let (prov, found, least) =
              first_listing_least providers provs k s (rw (e, first_listing) at h) in
            (prov, found, (λ listed. absurd (listed e), least))
        | inr (p', e) ↦ (x, ground arith, (λ _. str_lt_irrefl x, weaken providers k x provs a))
      ]

  Memᴰ-keys :
      (providers : Dict (ProviderSection R)) (prov k : Str) {p : ModelPricing R}
      → lookup k (models_of providers prov) ≡ some p
      → Memᴰ prov (keys providers)
  unfolding models_of lookup
  Memᴰ-keys [] prov k h = cc
  Memᴰ-keys ((q, sec) ∷ providers) prov k h = elim (Bool-cases (q == prov)) [
    | inl e ↦ head (sym ((eq_iff q prov).0 e))
    | inr e ↦ tail (Memᴰ-keys providers prov k (rw (e, lookup) at h))
  ]

  first_listing-ne-none :
      (providers : Dict (ProviderSection R)) (provs : List Str) (k : Str) {prov : Str}
      {p : ModelPricing R}
      → Memᴰ prov provs
      → lookup k (models_of providers prov) ≡ some p
      → first_listing providers provs k ≢ none
  unfolding first_listing
  first_listing-ne-none providers [] k m h = elim m [ ]
  first_listing-ne-none providers (q ∷ provs) k (head same) h =
      let here : lookup k (models_of providers q) ≢ none = rw (← same) (cc) in ground arith
  first_listing-ne-none providers (q ∷ provs) k (tail m) h =
      ground (arith, first_listing-ne-none providers provs k m h)

  -- The default price of a model id is the entry of the least provider, by name, that lists it.
  parse_catalog_default :
      (cf : CatalogFile R) (model : Str) {p : ModelPricing R}
      → lookup model (parse_catalog cf).0 ≡ some p
      → (prov : Str) × (lookup model (models_of cf.providers prov) ≡ some p)
        × ((q : Str) (p' : ModelPricing R)
            → lookup model (models_of cf.providers q) ≡ some p'
            → str_lt q prov ≡ false)
  unfolding parse_catalog lookup sort_strings
  parse_catalog_default cf model h =
      let names = sort_strings (keys cf.providers) in
      let (prov, found, least) =
        first_listing_least cf.providers names model (sort_strings-Sorted (keys cf.providers))
          (sym (lookup-load_providers cf.providers [] [] names model) ∙ h) in
      (
        prov,
        found,
        λ q p' e.
            All-Memᴰ _ names least (sort_by-Memᴰ str_lt (Memᴰ-keys cf.providers q model e))
              (ground arith),
      )

  -- Every price of a provider's section is in the per-provider index, and its model has a
  -- default, where the section holds no model twice.
  pub parse_catalog_prices :
      (cf : CatalogFile R) (prov model : Str) {p : ModelPricing R}
      → Distinct (models_of cf.providers prov)
      → lookup model (models_of cf.providers prov) ≡ some p
      → (lookup_in prov model (parse_catalog cf).1 ≡ some p)
        × (lookup model (parse_catalog cf).0 ≢ none)
  unfolding parse_catalog sort_strings lookup
  parse_catalog_prices cf prov model d h =
      let names = sort_strings (keys cf.providers) in
      let m = sort_by-Memᴰ str_lt (Memᴰ-keys cf.providers prov model h) in
      (
        lookup_in-load_providers cf.providers [] [] names prov model d (inl m) ∙ h,
        λ e.
            first_listing-ne-none cf.providers names model m h
              (sym (lookup-load_providers cf.providers [] [] names model) ∙ e),
      )
