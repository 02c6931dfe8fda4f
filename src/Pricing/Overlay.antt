-- ===== src/Pricing/Overlay.antt =====
-- overlayCatalog of internal/pricing/service.go: the local catalog written over the price maps.
use majordomo_gateway.Base.{
  ℕ, ◌+◌, ◌≡◌, refl, none, some, [], ◌∷◌, arith, if◌then◌else◌, is_some, Str, eq_iff, Dict, lookup,
  insert, lookup-insert, lookup_in, or_else, Distinct, All,
}

module _ {P : Type 0} where
  -- `for model, mp := range local { …; m[model] = mp }`, with the counter
  unfoldable pub overlay_models : Dict P → ℕ → Dict P → Dict P × ℕ
  overlay_models m overridden [] = (m, overridden)
  overlay_models m overridden ((model, mp) ∷ l) =
      overlay_models (insert model mp m)
        (if is_some (lookup model m) then overridden + 1 else overridden) l

  unfoldable pub inner_map : Str → Dict (Dict P) → Dict P
  inner_map prov m = elim (lookup prov m) [ none ↦ [] | some models ↦ models ]

  overlay_providers : Dict (Dict P) → ℕ → Dict (Dict P) → Dict (Dict P) × ℕ
  unfolding inner_map
  overlay_providers m overridden [] = (m, overridden)
  overlay_providers m overridden ((prov, models) ∷ l) =
      let (inner, n) = overlay_models (inner_map prov m) overridden models in
      overlay_providers (insert prov inner m) n l

  -- The maps are changed in place; here they are results, before the count.
  unfoldable pub overlay_catalog :
      Dict P → Dict (Dict P) → Dict P → Dict (Dict P) → Dict P × Dict (Dict P) × ℕ
  unfolding overlay_providers
  overlay_catalog pricing by_provider local local_by_provider =
      let (pricing', n) = overlay_models pricing 0 local in
      let (by_provider', n') = overlay_providers by_provider n local_by_provider in
      (pricing', by_provider', n')

  lookup-overlay_models :
      (m : Dict P) (n : ℕ) (l : Dict P) (k : Str)
      → Distinct l
      → lookup k (overlay_models m n l).0 ≡ or_else (lookup k l) (lookup k m)
  unfolding overlay_models lookup
  lookup-overlay_models m n [] k d = refl
  lookup-overlay_models m n ((j, v) ∷ l) k (fresh, d) = ground (
    arith,
    lookup-overlay_models (insert j v m) (if is_some (lookup j m) then n + 1 else n) l k d,
    lookup-insert j k v m,
    eq_iff j k,
  )

  lookup_in-overlay_providers :
      (m : Dict (Dict P)) (n : ℕ) (l : Dict (Dict P)) (k j : Str)
      → Distinct l
      → All (λ e. Distinct e.1) l
      → lookup_in k j (overlay_providers m n l).0 ≡ or_else (lookup_in k j l) (lookup_in k j m)
  unfolding overlay_providers lookup lookup_in
  lookup_in-overlay_providers m n [] k j d a = refl
  lookup_in-overlay_providers m n ((i, models) ∷ l) k j (fresh, d) (inner, a) =
      let (next, n') = overlay_models (inner_map i m) n models in
      ground (
        arith,
        lookup_in-overlay_providers (insert i next m) n' l k j d a,
        lookup-insert i k next m,
        lookup-overlay_models (inner_map i m) n models j inner,
        eq_iff i k,
      )

  -- The local catalog is authoritative: what it lists, for a model and for a provider's model, is
  -- what the maps hold afterwards, and what it does not list is as it was. The local maps hold no
  -- key twice, as no Go map does.
  pub lookup-overlay_catalog :
      (pricing : Dict P) (by_provider : Dict (Dict P)) (local : Dict P)
      (local_by_provider : Dict (Dict P)) (provider model : Str)
      → Distinct local
      → Distinct local_by_provider
      → All (λ e. Distinct e.1) local_by_provider
      → let (pricing', by_provider', _) =
          overlay_catalog pricing by_provider local local_by_provider in
        (lookup model pricing' ≡ or_else (lookup model local) (lookup model pricing))
        × (lookup_in provider model by_provider'
            ≡ or_else
                (lookup_in provider model local_by_provider)
                (lookup_in provider model by_provider))
  unfolding overlay_catalog
  lookup-overlay_catalog pricing by_provider local lbp provider model d d' a = (
    lookup-overlay_models pricing 0 local model d,
    lookup_in-overlay_providers by_provider _ lbp provider model d' a,
  )
