-- ===== src/Proxy/Headers.antt =====
-- The x-majordomo-* headers of a request, of internal/proxy/handler.go: which are kept, which
-- become metadata, and what they say of routing and of the data policy.
pub mod Laws
use majordomo_gateway.Base.{
  Bool, true, false, ◌&&◌, ◌||◌, Option, none, some, List, [], ◌∷◌, if◌then◌else◌, ℕ, Str, lit,
  ◌==◌, has_prefix, trim_prefix, to_lower, equal_fold, Dict, lookup, insert, eqb, leb, is_empty,
  is_some, or_else,
}
use majordomo_gateway.Provider.Names.{openai, majordomo}
use majordomo_gateway.Proxy.Route.{DataPolicy}
use majordomo_gateway.Proxy.Spans.{canonical_path}

-- The loop of extractHeaders over the request's headers; `none` is the index error of values[0].
unfoldable pub extract_into : Dict Str → Dict (List Str) → Option (Dict Str)
unfolding lit has_prefix to_lower
extract_into result [] = some result
extract_into result ((key, []) ∷ h) =
    let rest = extract_into result h in
    if has_prefix (to_lower key) (lit "x-majordomo") then none else rest
extract_into result ((key, value ∷ values) ∷ h) =
    let lower_key = to_lower key in
    let result' =
      if has_prefix lower_key (lit "x-majordomo") then insert lower_key value result else result in
    extract_into result' h

unfoldable pub extract_headers : Dict (List Str) → Option (Dict Str)
unfolding extract_into
extract_headers h = extract_into [] h

-- reservedMajordomoHeaders
unfoldable pub is_reserved : Str → Bool
unfolding lit ◌==◌
is_reserved key =
    key == lit "x-majordomo-key"
    || key == lit "x-majordomo-provider"
    || key == lit "x-majordomo-provider-alias"
    || key == lit "x-majordomo-client"
    || key == lit "x-majordomo-trace-id"
    || key == lit "x-majordomo-span-path"
    || key == lit "x-majordomo-span-name"

unfoldable pub clean_key : Str → Str
unfolding trim_prefix lit
clean_key key = trim_prefix key (lit "x-majordomo-")

-- The loop of extractCustomMetadata.
unfoldable pub metadata_into : Dict Str → Dict Str → Dict Str
metadata_into metadata [] = metadata
metadata_into metadata ((key, value) ∷ headers) =
    let metadata' = if is_reserved key then metadata else insert (clean_key key) value metadata in
    metadata_into metadata' headers

unfoldable pub extract_custom_metadata : Dict Str → Dict Str
unfolding metadata_into
extract_custom_metadata headers = metadata_into [] headers

-- headers[key], empty for a missing key
unfoldable pub header : Str → Dict Str → Str
unfolding lookup
header key headers = elim (lookup key headers) [ none ↦ [] | some v ↦ v ]

unfoldable pub should_consider_routing : Dict Str → Str → Bool
unfolding header lit openai majordomo ◌==◌ equal_fold
should_consider_routing headers provider =
    if equal_fold (header (lit "x-majordomo-provider") headers) majordomo
    then provider == openai
    else false

-- strings.TrimSpace, of ASCII space
unfoldable pub is_space : ℕ → Bool
is_space c = leb 9 c && leb c 13 || eqb c 32

unfoldable pub trim_left : Str → Str
unfolding is_space
trim_left [] = []
trim_left (c ∷ s) = let rest = trim_left s in if is_space c then rest else c ∷ s

unfoldable pub trim_right : Str → Str
unfolding is_space
trim_right [] = []
trim_right (c ∷ s) = let rest = trim_right s in if is_space c && is_empty rest then [] else c ∷ rest

unfoldable pub is_truthy_header : Str → Bool
unfolding trim_left trim_right to_lower lit ◌==◌
is_truthy_header v =
    let w = to_lower (trim_right (trim_left v)) in
    w == lit "1"
    || w == lit "true"
    || w == lit "yes"
    || w == lit "on"
    || w == lit "require"
    || w == lit "required"

-- The two fields of config.Routing that the policy is made of.
pub record RoutingConfig : Type 0 where
  pub default_require_zdr : Bool
  pub default_data_collection : Str

unfoldable pub asks_zdr : Dict Str → Bool
unfolding is_truthy_header lookup lit
asks_zdr headers = elim (lookup (lit "x-majordomo-zdr") headers) [
  | none ↦ false
  | some v ↦ is_truthy_header v
]

unfoldable pub denies_collection : Dict Str → Bool
unfolding lookup lit equal_fold
denies_collection headers = elim (lookup (lit "x-majordomo-data-collection") headers) [
  | none ↦ false
  | some v ↦ equal_fold v (lit "deny")
]

unfoldable pub resolve_data_policy : RoutingConfig → Dict Str → DataPolicy
unfolding asks_zdr denies_collection
resolve_data_policy config headers = record {
  require_zdr = if asks_zdr headers then true else config.default_require_zdr;
  require_no_data_collection =
      if denies_collection headers
      then true
      else equal_fold config.default_data_collection (lit "deny");
}

-- The call-tree fields of the log; an id is what the uuid package gives.
pub record Tracing (Id' : Type 0) : Type 0 where
  pub trace_id : Str
  pub span_path : Str
  pub span_name : Str
  pub span_id : Id'
  pub parent_span_id : Id'

-- applyRunTracing; `interior_span_id` is spanid.InteriorSpanID, and `none` leaves the fields nil.
unfoldable pub apply_run_tracing :
    {Id' : Type 0} → (Str → Str → Id') → Str → Id' → Dict Str → Option (Tracing Id')
unfolding header lit canonical_path
apply_run_tracing interior_span_id model request_id headers =
    let trace_id = header (lit "x-majordomo-trace-id") headers in
    let canonical = canonical_path (header (lit "x-majordomo-span-path") headers) in
    let span_name = header (lit "x-majordomo-span-name") headers in
    if is_empty trace_id
    then none
    else some (record {
      trace_id = trace_id;
      span_path = canonical;
      span_name = if is_empty span_name then model else span_name;
      span_id = request_id;
      parent_span_id = interior_span_id trace_id canonical;
    })
