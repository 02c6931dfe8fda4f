-- ===== src/Proxy/Headers/Laws.antt =====
-- What of a request's headers ends up where: in the header map, in the metadata, and in the data
-- policy.
use mathlib.Core.Path.{subst}
use mathlib.Core.List.Memᴰ.{head, tail}
use majordomo_gateway.Base.{
  not, ◌||◌, equal_fold, true, false, ◌≡◌, sym, ap, ◌∙◌, none, some, List, [], ◌∷◌, ◌++◌, arith,
  if◌then◌else◌, Str, lit, ◌==◌, eq_iff, has_prefix, to_lower, drop, length, Dict, lookup, insert,
  lookup-insert, or_else, Distinct, drop-append, Memᴰ, All, Float, Bool-cases, trim_prefix,
  bool_iff, has_prefix-drop, ◌⊎◌, is_empty, inl, option_clash, inr, some_injective,
}
use majordomo_gateway.Proxy.Headers.{
  RoutingConfig, resolve_data_policy, asks_zdr, denies_collection, clean_key, is_reserved,
  metadata_into, extract_custom_metadata, apply_run_tracing, extract_into, Tracing, header,
  extract_headers,
}
use majordomo_gateway.Proxy.Spans.{split_path, canonical_path}
use majordomo_gateway.Proxy.Spans.Laws.{canonical_path_iff}
use majordomo_gateway.Pricing.Types.{Endpoint}
use majordomo_gateway.Proxy.Route.{
  complies, route_candidates, Env, decided, RouteDecision, decision,
}
use majordomo_gateway.Proxy.Route.Laws.{route_candidates-IsChosen}
use majordomo_gateway.Proxy.Health.{HealthSnapshot}

complies-floors :
    (config : RoutingConfig) (headers : Dict Str) (ep : Endpoint)
    → complies (resolve_data_policy config headers) ep ≡ true
    → ((not (config.default_require_zdr || asks_zdr headers) || ep.zdr) ≡ true)
      × ((not (equal_fold config.default_data_collection (lit "deny") || denies_collection headers)
            || equal_fold ep.data_collection (lit "deny"))
          ≡ true)
unfolding complies resolve_data_policy
complies-floors config headers ep h = ground arith

-- Headers tighten, and never relax: a request is routed to a candidate that retains no data if the
-- configuration or a header requires it, and that denies data collection if either requires it.
pub route_candidates-resolve_data_policy :
    {F : Float} (env : Env F) (health : HealthSnapshot F.R) (config : RoutingConfig)
    (headers : Dict Str) (eps : List Endpoint) (d : RouteDecision)
    → route_candidates env health (resolve_data_policy config headers) eps ≡ decided d
    → (ep : Endpoint) × Memᴰ ep eps
      × (d ≡ decision ep d.reason)
      × ((not (config.default_require_zdr || asks_zdr headers) || ep.zdr) ≡ true)
      × ((not (equal_fold config.default_data_collection (lit "deny") || denies_collection headers)
            || equal_fold ep.data_collection (lit "deny"))
          ≡ true)
route_candidates-resolve_data_policy env health config headers eps d h =
    let policy = resolve_data_policy config headers in
    let c = route_candidates-IsChosen env health policy eps h in
    let (zdr, collection) = complies-floors config headers c.ep c.eligible.compliant in
    (c.ep, c.eligible.listed, c.same, zdr, collection)

abbrev majordomo_dash : Str
majordomo_dash = lit "x-majordomo-"

cancel_front : (p s t : Str) → p ++ s ≡ p ++ t → s ≡ t
cancel_front p s t h = sym (drop-append p s) ∙ ap (drop (length p)) h ∙ drop-append p t

clean_key-append :
    (key : Str) → has_prefix key majordomo_dash ≡ true → key ≡ majordomo_dash ++ clean_key key
unfolding clean_key trim_prefix
clean_key-append key h = rw h (has_prefix-drop key majordomo_dash h)

clean_key_iff :
    (key k : Str)
    → has_prefix key majordomo_dash ≡ true
    → (clean_key key == k) ≡ (key == (majordomo_dash ++ k))
clean_key_iff key k h =
    let e = clean_key-append key h in
    bool_iff (clean_key key == k) (key == (majordomo_dash ++ k))
      (λ q.
        (eq_iff key (majordomo_dash ++ k)).1
          (e ∙ ap (λ x. majordomo_dash ++ x) ((eq_iff (clean_key key) k).0 q)))
      (λ q. (eq_iff (clean_key key) k).1 (
        cancel_front majordomo_dash (clean_key key) k
          (sym e ∙ (eq_iff key (majordomo_dash ++ k)).0 q)))

lookup-metadata_into :
    (metadata headers : Dict Str) (k : Str)
    → Distinct headers
    → All (λ e. has_prefix e.0 majordomo_dash ≡ true) headers
    → lookup k (metadata_into metadata headers)
      ≡ or_else
          (if is_reserved (majordomo_dash ++ k) then none else lookup (majordomo_dash ++ k) headers)
          (lookup k metadata)
unfolding metadata_into lookup
lookup-metadata_into metadata [] k d a = ground arith
lookup-metadata_into metadata ((key, value) ∷ headers) k (fresh, d) (p, a) = ground (
  arith,
  lookup-metadata_into (if is_reserved key then metadata else insert (clean_key key) value metadata)
      headers k d a,
  lookup-insert (clean_key key) k value metadata,
  clean_key_iff key k p,
  eq_iff key (majordomo_dash ++ k),
)

-- Where every header's name begins with x-majordomo- and no two are the same, the metadata has under a
-- name exactly the value of the header of that name behind x-majordomo-, unless this is reserved:
-- reserved headers do not leak, and no other header is lost or overwritten.
lookup-extract_custom_metadata :
    (headers : Dict Str) (k : Str)
    → Distinct headers
    → All (λ e. has_prefix e.0 majordomo_dash ≡ true) headers
    → lookup k (extract_custom_metadata headers)
      ≡ (if is_reserved (majordomo_dash ++ k) then none else lookup (majordomo_dash ++ k) headers)
unfolding extract_custom_metadata lookup
lookup-extract_custom_metadata headers k d a = ground (arith, lookup-metadata_into [] headers k d a)

-- What holds of each entry that is there at the start, or comes from a header with the prefix.
abbrev Kept : Dict (List Str) → Str → Str → Type 0
Kept h k v =
    (has_prefix k (lit "x-majordomo") ≡ true)
    × (key : Str) × (values : List Str) × Memᴰ (key, v ∷ values) h
    × (to_lower key ≡ k)

Kept-later :
    {P : Type 0} (e : Str × List Str) {h : Dict (List Str)} {k v : Str}
    → P ⊎ Kept h k v
    → P ⊎ Kept (e ∷ h) k v
Kept-later e (inl p) = inl p
Kept-later e (inr (q, key, values, m, l)) = inr (q, key, values, tail m, l)

lookup-extract_into :
    (result : Dict Str) (h : Dict (List Str)) (r : Dict Str) (k v : Str)
    → extract_into result h ≡ some r
    → lookup k r ≡ some v
    → (lookup k result ≡ some v) ⊎ Kept h k v
unfolding extract_into
lookup-extract_into result [] r k v e l =
    inl (subst (λ x. lookup k x ≡ some v) (sym (some_injective e)) l)
lookup-extract_into result ((key, []) ∷ h) r k v e l =
    elim (Bool-cases (has_prefix (to_lower key) (lit "x-majordomo"))) [
      | inl p ↦ absurd (option_clash (rw p at e))
      | inr p ↦ Kept-later (key, []) (lookup-extract_into result h r k v (rw p at e) l)
    ]
lookup-extract_into result ((key, value ∷ values) ∷ h) r k v e l =
    elim (Bool-cases (has_prefix (to_lower key) (lit "x-majordomo"))) [
      | inl p ↦
          elim (lookup-extract_into (insert (to_lower key) value result) h r k v (rw p at e) l) [
            | inl found ↦
                inserted p (Bool-cases (to_lower key == k))
                  (sym (lookup-insert (to_lower key) k value result) ∙ found)
            | inr kept ↦ Kept-later (key, value ∷ values) (inr kept)
          ]
      | inr p ↦ Kept-later (key, value ∷ values) (lookup-extract_into result h r k v (rw p at e) l)
    ]
  where
    inserted :
        has_prefix (to_lower key) (lit "x-majordomo") ≡ true
        → ((to_lower key == k) ≡ true) ⊎ ((to_lower key == k) ≡ false)
        → (if to_lower key == k then some value else lookup k result) ≡ some v
        → (lookup k result ≡ some v) ⊎ Kept ((key, value ∷ values) ∷ h) k v
    inserted p (inr q) found = inl (rw q at found)
    inserted p (inl q) found =
        let same = (eq_iff (to_lower key) k).0 q in
        inr (
          subst (λ x. has_prefix x (lit "x-majordomo") ≡ true) same p,
          key,
          values,
          head (ap (λ x. (key, x ∷ values)) (sym (some_injective (rw q at found)))),
          same,
        )

-- Each entry of the header map is the first value of a header whose name begins with x-majordomo, in
-- whatever case, under this name in lower case: no other header of the request is ever taken in.
extract_headers-Kept :
    (h : Dict (List Str)) (r : Dict Str) (k v : Str)
    → extract_headers h ≡ some r
    → lookup k r ≡ some v
    → (has_prefix k (lit "x-majordomo") ≡ true)
      × (key : Str) × (values : List Str) × Memᴰ (key, v ∷ values) h
      × (to_lower key ≡ k)
unfolding extract_headers lookup
extract_headers-Kept h r k v e l = elim (lookup-extract_into [] h r k v e l) [
  | inl none_there ↦ absurd (option_clash none_there)
  | inr kept ↦ kept
]

run_tracing_of :
    {Id' : Type 0} (interior_span_id : Str → Str → Id') (model : Str) (request_id : Id')
    (headers : Dict Str) (t : Tracing Id')
    → apply_run_tracing interior_span_id model request_id headers ≡ some t
    → (canonical_path (header (lit "x-majordomo-span-path") headers) ≡ t.span_path)
      × (interior_span_id
            (header (lit "x-majordomo-trace-id") headers)
            (canonical_path (header (lit "x-majordomo-span-path") headers))
          ≡ t.parent_span_id)
unfolding apply_run_tracing
run_tracing_of ids model i headers t h =
    elim (Bool-cases (is_empty (header (lit "x-majordomo-trace-id") headers))) [
      | inl e ↦ absurd (option_clash (rw e at h))
      | inr e ↦
          let same = some_injective (rw e at h) in
          (ap (λ x. x.span_path) same, ap (λ x. x.parent_span_id) same)
    ]

-- Two requests of a run whose paths have the same steps hang below the same node, with the same path,
-- however their clients wrote the separators. A request without a trace id is in no run.
apply_run_tracing-steps :
    {Id' : Type 0} (interior_span_id : Str → Str → Id') (model model' : Str)
    (request_id request_id' : Id') (headers headers' : Dict Str) (t t' : Tracing Id')
    → header (lit "x-majordomo-trace-id") headers ≡ header (lit "x-majordomo-trace-id") headers'
    → split_path (header (lit "x-majordomo-span-path") headers)
      ≡ split_path (header (lit "x-majordomo-span-path") headers')
    → apply_run_tracing interior_span_id model request_id headers ≡ some t
    → apply_run_tracing interior_span_id model' request_id' headers' ≡ some t'
    → (t.span_path ≡ t'.span_path) × (t.parent_span_id ≡ t'.parent_span_id)
apply_run_tracing-steps ids m m' i i' hs hs' t t' e p q q' =
    let (a, b) = run_tracing_of ids m i hs t q in
    let (a', b') = run_tracing_of ids m' i' hs' t' q' in
    let same =
      (canonical_path_iff (header (lit "x-majordomo-span-path") hs)
          (header (lit "x-majordomo-span-path") hs')).0.1
        p in
    (
      sym a ∙ same ∙ a',
      sym b
          ∙ ap (λ x. ids x (canonical_path (header (lit "x-majordomo-span-path") hs))) e
          ∙ ap (ids (header (lit "x-majordomo-trace-id") hs')) same
          ∙ b',
    )
