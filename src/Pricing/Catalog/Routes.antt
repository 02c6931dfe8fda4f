-- ===== src/Pricing/Catalog/Routes.antt =====
-- The routing catalog that parseCatalog builds: its endpoints, in order.
use mathlib.Core.List.{append_assoc}
use mathlib.Core.Path.{subst}
use majordomo_gateway.Base.{
  ◌≡◌, refl, inl, inr, Option-cases, Option, none, some, List, [], ◌∷◌, ◌++◌, arith, if◌then◌else◌,
  Str, ◌==◌, eq_iff, Dict, lookup, lookup-insert, Distinct, is_some, All, true, lit,
}
use majordomo_gateway.Pricing.Types.{Endpoint, RouteEntry, ProviderSection, CatalogFile}
use majordomo_gateway.Pricing.Catalog.{
  route_endpoint, append_endpoint, load_entries, load_routes, parse_catalog,
}

-- An entry with some more endpoints behind it.
abbrev pub extend : Option (List Endpoint) → List Endpoint → Option (List Endpoint)
extend o [] = o
extend none (ep ∷ eps) = some (ep ∷ eps)
extend (some old) (ep ∷ eps) = some (old ++ ep ∷ eps)

extend-append :
    (o : Option (List Endpoint)) (ep : Endpoint) (eps : List Endpoint)
    → extend (extend o (ep ∷ [])) eps ≡ extend o (ep ∷ eps)
extend-append none ep [] = refl
extend-append none ep (e ∷ eps) = refl
extend-append (some old) ep [] = refl
extend-append (some old) ep (e ∷ eps) = simp append_assoc

lookup-append_endpoint :
    (slug : Str) (ep : Endpoint) (catalog : Dict (List Endpoint)) (k : Str)
    → lookup k (append_endpoint slug ep catalog)
      ≡ (if slug == k then extend (lookup k catalog) (ep ∷ []) else lookup k catalog)
unfolding append_endpoint
lookup-append_endpoint slug ep catalog k = ground (
  arith,
  eq_iff slug k,
  lookup-insert slug k (elim (lookup slug catalog) [ none ↦ ep ∷ [] | some eps ↦ eps ++ ep ∷ [] ])
      catalog,
)

module _ {R : Type 0} where
  -- The endpoints of a slug's valid entries, in the order of the file.
  pub valid_endpoints : Dict (ProviderSection R) → List RouteEntry → List Endpoint
  valid_endpoints providers [] = []
  valid_endpoints providers (re ∷ entries) = elim (route_endpoint providers re) [
    | none ↦ valid_endpoints providers entries
    | some ep ↦ ep ∷ valid_endpoints providers entries
  ]

  lookup-load_entries :
      (providers : Dict (ProviderSection R)) (slug : Str) (entries : List RouteEntry)
      (catalog : Dict (List Endpoint)) (k : Str)
      → lookup k (load_entries providers slug entries catalog) ≡ (
          if slug == k
          then extend (lookup k catalog) (valid_endpoints providers entries)
          else lookup k catalog)
  unfolding load_entries valid_endpoints
  lookup-load_entries providers slug [] catalog k = ground arith
  lookup-load_entries providers slug (re ∷ entries) catalog k =
      elim (Option-cases (route_endpoint providers re)) [
        | inl e ↦ rw (e, valid_endpoints) (lookup-load_entries providers slug entries catalog k)
        | inr (ep, e) ↦
            rw (e, valid_endpoints)
              (ground (
                arith,
                lookup-load_entries providers slug entries (append_endpoint slug ep catalog) k,
                lookup-append_endpoint slug ep catalog k,
                extend-append (lookup k catalog) ep (valid_endpoints providers entries),
              ))
      ]

  lookup-load_routes :
      (providers : Dict (ProviderSection R)) (routes : Dict (List RouteEntry))
      (catalog : Dict (List Endpoint)) (k : Str)
      → Distinct routes
      → lookup k (load_routes providers routes catalog)
        ≡ extend (lookup k catalog) (elim (lookup k routes) [
          | none ↦ []
          | some entries ↦ valid_endpoints providers entries
        ])
  unfolding load_routes lookup valid_endpoints
  lookup-load_routes providers [] catalog k d = refl
  lookup-load_routes providers ((slug, entries) ∷ routes) catalog k (fresh, d) = ground (
    arith,
    lookup-load_routes providers routes (load_entries providers slug entries catalog) k d,
    lookup-load_entries providers slug entries catalog k,
    eq_iff slug k,
  )

  -- A slug is routable exactly when its routes have a valid entry, and its candidates are then
  -- the valid entries in the order of the file: nothing is lost, added, or moved to another slug.
  -- No slug is in the file twice.
  pub lookup-parse_catalog :
      (cf : CatalogFile R) (slug : Str)
      → Distinct cf.routes
      → lookup slug (parse_catalog cf).2
        ≡ extend none (elim (lookup slug cf.routes) [
          | none ↦ []
          | some entries ↦ valid_endpoints cf.providers entries
        ])
  unfolding parse_catalog lookup
  lookup-parse_catalog cf slug d = lookup-load_routes cf.providers cf.routes [] slug d

-- What the router relies on in every candidate: the provider is in the catalog and prices the
-- model id that will be sent, the data posture is the provider's, and no default sets the model.
pub record IsServable {R : Type 0} (providers : Dict (ProviderSection R)) (ep : Endpoint)
    : Type 0 where
  pub sec : ProviderSection R
  pub listed : lookup ep.provider providers ≡ some sec
  pub priced : is_some (lookup ep.provider_model_id sec.models) ≡ true
  pub base_url : ep.base_url ≡ sec.base_url
  pub zdr : ep.zdr ≡ sec.zdr
  pub data_collection : ep.data_collection ≡ sec.data_collection
  no_model : lookup (lit "model") ep.request_defaults ≡ none

extend-All :
    (P : Endpoint → Type 0) (eps : List Endpoint) {out : List Endpoint}
    → All P eps
    → extend none eps ≡ some out
    → All P out
extend-All P [] a h = cc
extend-All P (ep ∷ eps) {out} a h = let e : ep ∷ eps ≡ out = cc in subst (All P) e a

module _ {R : Type 0} where
  route_endpoint-IsServable :
      (providers : Dict (ProviderSection R)) (re : RouteEntry) {ep : Endpoint}
      → route_endpoint providers re ≡ some ep
      → IsServable providers ep
  unfolding route_endpoint
  route_endpoint-IsServable providers re {ep} h =
      elim (Option-cases (lookup re.provider providers)) [
        | inl e ↦ absurd (ground arith)
        | inr (sec, e) ↦ record {
          sec = sec;
          listed = ground arith;
          priced = ground arith;
          base_url = ground arith;
          zdr = ground arith;
          data_collection = ground arith;
          no_model = ground (arith);
        }
      ]

  valid_endpoints-IsServable :
      (providers : Dict (ProviderSection R)) (entries : List RouteEntry)
      → All (IsServable providers) (valid_endpoints providers entries)
  unfolding valid_endpoints
  valid_endpoints-IsServable providers [] = tt
  valid_endpoints-IsServable providers (re ∷ entries) =
      elim (Option-cases (route_endpoint providers re)) [
        | inl e ↦ rw (e, valid_endpoints) (valid_endpoints-IsServable providers entries)
        | inr (ep, e) ↦
            rw (e, valid_endpoints)
              (
                route_endpoint-IsServable providers re e,
                valid_endpoints-IsServable providers entries,
              )
      ]

  -- Every candidate of the parsed catalog is servable: its provider has a section, which prices
  -- the model id that will be sent and gives the base URL and the data posture, and no default
  -- sets the model. No slug is in the file twice.
  pub parse_catalog-IsServable :
      (cf : CatalogFile R) (slug : Str) {eps : List Endpoint}
      → Distinct cf.routes
      → lookup slug (parse_catalog cf).2 ≡ some eps
      → All (IsServable cf.providers) eps
  parse_catalog-IsServable cf slug d h = elim (Option-cases (lookup slug cf.routes)) [
    | inl e ↦ absurd (ground (arith, lookup-parse_catalog cf slug d))
    | inr (entries, e) ↦
        extend-All (IsServable cf.providers) (valid_endpoints cf.providers entries)
          (valid_endpoints-IsServable cf.providers entries)
          (ground (arith, lookup-parse_catalog cf slug d))
  ]
