-- ===== src/Pricing/Reload.antt =====
-- fetchRemote (from the decoded feed on), reload and loadAliases of internal/pricing/service.go.
-- A file or a feed that could not be read is `none` or `failed`; the refresh loop is a sequence of
-- calls of `reload`.
pub mod Laws
use majordomo_gateway.Base.{
  Bool, true, false, not, ◌||◌, Option, none, some, List, [], ◌∷◌, if◌then◌else◌, is_some, Str, lit,
  ◌==◌, Dict, insert, ℕ,
}
use majordomo_gateway.Pricing.Types.{ModelPricing, Endpoint, CatalogFile, Service}
use majordomo_gateway.Pricing.Overlay.{inner_map, overlay_catalog}
use majordomo_gateway.Pricing.Catalog.{parse_catalog}

pub record RemotePriceEntry (R : Type 0) : Type 0 where
  pub id : Str
  pub vendor : Str
  pub input : R
  pub output : R
  pub input_cached : Option R

-- The remote feed: no URL configured, a failed fetch, or the decoded prices.
pub data Remote (R : Type 0) : Type 0 where
  unset failed : Remote R
  fetched : List (RemotePriceEntry R) → Remote R

pub data ReloadError : Type 0 where
  local_error remote_error : ReloadError

module _ {R : Type 0} (zero_price : R) where
  pub remote_pricing : RemotePriceEntry R → ModelPricing R
  remote_pricing entry = record {
    input_price_per_million = entry.input;
    output_price_per_million = entry.output;
    cached_price_per_million = elim entry.input_cached [ none ↦ zero_price | some c ↦ c ];
  }

  -- The loop of `fetchRemote` over the prices.
  unfoldable pub index_remote :
      Dict (ModelPricing R)
      → Dict (Dict (ModelPricing R))
      → List (RemotePriceEntry R)
      → Dict (ModelPricing R) × Dict (Dict (ModelPricing R))
  unfolding remote_pricing
  index_remote pricing by_provider [] = (pricing, by_provider)
  index_remote pricing by_provider (entry ∷ entries) =
      let mp = remote_pricing entry in
      index_remote (insert entry.id mp pricing)
        (if entry.vendor == lit ""
          then by_provider
          else insert entry.vendor (insert entry.id mp (inner_map entry.vendor by_provider))
              by_provider)
        entries

  -- The last part of `reload`: the overlay, and the swap under the lock.
  unfoldable pub install :
      Service R
      → Dict (ModelPricing R)
      → Dict (Dict (ModelPricing R))
      → Option (CatalogFile R)
      → Service R
  install s pricing by_provider none =
      let (pricing', by_provider', _) = overlay_catalog pricing by_provider [] [] in
      record s { pricing = pricing'; by_provider = by_provider' }
  install s pricing by_provider (some cf) =
      let (local, local_by_provider, catalog) = parse_catalog cf in
      let (pricing', by_provider', _) =
        overlay_catalog pricing by_provider local local_by_provider in
      record s { pricing = pricing'; by_provider = by_provider'; catalog = catalog }

  -- The new state, and the error that `reload` returns.
  unfoldable pub reload :
      Bool → Service R → Option (CatalogFile R) → Remote R → Service R × Option ReloadError
  reload initial s file unset =
      if is_some file then (install s [] [] file, none) else (s, some local_error)
  reload initial s file failed =
      if not (is_some file) || not initial
      then (s, some remote_error)
      else (install s [] [] file, none)
  reload initial s file (fetched entries) =
      let (pricing, by_provider) = index_remote [] [] entries in
      (install s pricing by_provider file, none)

  unfoldable pub load_aliases : Service R → Option (Dict Str) → Service R
  load_aliases s none = s
  load_aliases s (some aliases) = record s { aliases = aliases }

  -- NewService: empty maps, the aliases, and the initial load.
  unfoldable pub new_service : Option (Dict Str) → Option (CatalogFile R) → Remote R → Service R
  unfolding load_aliases
  new_service aliases file remote =
      (reload true
        (load_aliases (record { pricing = []; by_provider = []; catalog = []; aliases = [] })
          aliases)
        file remote).0

  -- The ticks of `refreshLoop`, each with what its reload reads.
  unfoldable pub refresh_loop : Service R → List (Option (CatalogFile R) × Remote R) → Service R
  refresh_loop s [] = s
  refresh_loop s ((file, remote) ∷ ticks) = refresh_loop (reload false s file remote).0 ticks
