-- ===== src/Tests/Request.antt =====
-- What becomes of a request's headers, host and body, at concrete inputs.
use majordomo_gateway.Base.{
  not, ◌||◌, equal_fold, refl, ◌≡◌, ◌≢◌, ◌↔◌, true, false, none, some, Option, List, [], ◌∷◌, ◌++◌,
  lit, Str, Dict, lookup, ◌==◌, has_prefix, Memᴰ, or_else, is_empty, if◌then◌else◌, insert, ◌&&◌,
  equal_fold, sort_by, insert_by, filter,
}
use majordomo_gateway.Pricing.Types.{Endpoint}
use majordomo_gateway.Tests.Route.{env, no_health, chosen_b, pool}
use majordomo_gateway.Proxy.Region.{
  resolve_bedrock_region, parse_bedrock_region_from_host, region_panics, before_colon,
  all_region_bytes,
}
use majordomo_gateway.Proxy.Region.Laws.{
  resolve_bedrock_region-is_valid, parse_bedrock_region_from_host_panics_iff,
}
use majordomo_gateway.Proxy.Region.Hosts.{overlapping}
use majordomo_gateway.Proxy.Rewrite.{
  Codec, rewrite_fields, override_model, rewrite_routed_request, overridden, override_panicked,
  rewritten, failed, not_an_object, object, null, sets_reasoning, is_reasoning_control,
}
use majordomo_gateway.Proxy.Rewrite.Laws.{
  lookup-rewrite_fields, override_model-rewrite_routed_request,
}
use majordomo_gateway.Proxy.Headers.{
  RoutingConfig, extract_custom_metadata, is_reserved, Tracing, clean_key, resolve_data_policy,
  asks_zdr, denies_collection,
}
use majordomo_gateway.Proxy.Headers.Laws.{route_candidates-resolve_data_policy}
use majordomo_gateway.Proxy.Route.{route_candidates, decision}
use majordomo_gateway.Proxy.Select.{select_by_cost}
use majordomo_gateway.Proxy.Health.{is_healthy}

abbrev us : Str
us = lit "us-east-1"

resolve_bedrock_region-is_valid_example : (is_empty us ≡ false) × (all_region_bytes us ≡ true)
unfolding resolve_bedrock_region lit
resolve_bedrock_region-is_valid_example =
    resolve_bedrock_region-is_valid [] (lit "bedrock-runtime.us-east-1.amazonaws.com:443") us refl

parse_bedrock_region_from_host_panics_iff_example :
    (parse_bedrock_region_from_host (lit "bedrock-runtime.amazonaws.com:443") ≡ region_panics)
    ↔ (before_colon (lit "bedrock-runtime.amazonaws.com:443") ≡ overlapping)
parse_bedrock_region_from_host_panics_iff_example =
    parse_bedrock_region_from_host_panics_iff (lit "bedrock-runtime.amazonaws.com:443")

-- The host without a region makes the slice's bounds cross.
panicking_host :
    parse_bedrock_region_from_host (lit "bedrock-runtime.amazonaws.com:443") ≡ region_panics
unfolding parse_bedrock_region_from_host lit
panicking_host = refl

abbrev defaults : Dict Str
defaults = (lit "thinking", lit "1") ∷ (lit "top_p", lit "2") ∷ []

abbrev sent : Dict Str
sent = (lit "model", lit "s") ∷ (lit "reasoning", lit "3") ∷ []

lookup-rewrite_fields_example : lookup (lit "top_p") (rewrite_fields (lit "m") defaults sent).0 ≡ (
    if lit "model" == lit "top_p"
    then some (lit "m")
    else or_else (lookup (lit "top_p") sent) (
        if is_reasoning_control (lit "top_p") && sets_reasoning sent
        then none
        else lookup (lit "top_p") defaults))
unfolding lookup lit ◌==◌
lookup-rewrite_fields_example =
    lookup-rewrite_fields (lit "m") defaults sent (lit "top_p") (refl, (refl, tt))

-- A codec that reads every body as the same map, and writes nothing but strings.
abbrev pub codec : Codec
codec = record {
  unmarshal = λ body. if is_empty body then null else object sent;
  marshal = λ fields. some (lit "o");
  marshal_string = λ s. some s;
}

override_model-rewrite_routed_request_example :
    ((out : Str)
      → (override_model codec [] (lit "m") ≡ overridden out)
        ↔ (rewrite_routed_request codec [] (lit "m") [] ≡ rewritten out []))
    × ((override_model codec [] (lit "m") ≡ override_panicked) ↔ (
        (rewrite_routed_request codec [] (lit "m") [] ≡ failed not_an_object)
        × (some (lit "m") ≢ none)))
override_model-rewrite_routed_request_example =
    override_model-rewrite_routed_request codec [] (lit "m")

-- A header that would rather not require it.
abbrev zdr_off : Dict Str
zdr_off = (lit "x-majordomo-zdr", lit "false") ∷ []

abbrev lenient : RoutingConfig
lenient = record { default_require_zdr = true; default_data_collection = lit "deny" }

route_candidates-resolve_data_policy_example :
    (ep : Endpoint) × Memᴰ ep pool
    × (chosen_b ≡ decision ep chosen_b.reason)
    × ((not (lenient.default_require_zdr || asks_zdr zdr_off) || ep.zdr) ≡ true)
    × ((not (equal_fold lenient.default_data_collection (lit "deny") || denies_collection zdr_off)
          || equal_fold ep.data_collection (lit "deny"))
        ≡ true)
unfolding route_candidates select_by_cost ◌==◌ lit equal_fold is_healthy lookup sort_by insert_by
    filter resolve_data_policy asks_zdr denies_collection
route_candidates-resolve_data_policy_example =
    route_candidates-resolve_data_policy env no_health lenient zdr_off pool chosen_b refl

abbrev request_headers : Dict Str
request_headers = (lit "x-majordomo-zdr", lit "1") ∷ (lit "x-majordomo-key", lit "k") ∷ []

-- The policy header is not reserved, and so is metadata too.
zdr_in_metadata : lookup (lit "zdr") (extract_custom_metadata request_headers) ≡ some (lit "1")
unfolding extract_custom_metadata is_reserved clean_key insert lookup lit ◌==◌ has_prefix
zdr_in_metadata = refl

abbrev http_headers : Dict (List Str)
http_headers = (lit "X-Majordomo-Key", lit "k" ∷ []) ∷ (lit "Accept", lit "a" ∷ []) ∷ []

abbrev run_headers : Str → Dict Str
run_headers path = (lit "x-majordomo-trace-id", lit "t") ∷ (lit "x-majordomo-span-path", path) ∷ []

abbrev span_id_of : Str → Str → Str
span_id_of trace path = trace ++ path

abbrev traced : Tracing Str
traced = record {
  trace_id = lit "t";
  span_path = lit "a/b";
  span_name = lit "m";
  span_id = lit "1";
  parent_span_id = lit "ta/b";
}

abbrev steps : List Str
steps = lit "a" ∷ lit "b" ∷ []

abbrev traced_other : Tracing Str
traced_other = record {
  trace_id = lit "t";
  span_path = lit "a/b";
  span_name = lit "n";
  span_id = lit "2";
  parent_span_id = lit "ta/b";
}

abbrev mixed : Dict (List Str)
mixed = (lit "X-Majordomo-Zdr", lit "1" ∷ lit "2" ∷ []) ∷ (lit "Accept", lit "*" ∷ []) ∷ []

abbrev raw : Dict Str
raw = (lit "_comment", lit "c") ∷ (lit "old", lit "new") ∷ []

abbrev read_raw : Str → Option Str
read_raw path = some (lit "f")

abbrev decode_raw : Str → Option (Dict Str)
decode_raw data' = some raw
