-- ===== src/Tests/Handler.antt =====
-- The handler at a concrete request, which opts in to routing.
use majordomo_gateway.Base.{
  ◌||◌, refl, ◌≡◌, ◌≢◌, ◌⊎◌, false, not, none, some, List, [], ◌∷◌, lit, Str, Dict, lookup, ◌==◌,
  filter, if◌then◌else◌, to_lower, has_prefix, has_suffix, contains, insert, equal_fold,
  sort_strings, sort_by, true, Option,
}
use majordomo_gateway.Auth.{ApiKeyInfo}
use majordomo_gateway.Tests.Route.{chosen_b}
use majordomo_gateway.Tests.Request.{codec}
use majordomo_gateway.Provider.Names.{anthropic_openai, unknown, names}
use majordomo_gateway.Provider.Detect.{detect, detect_from_path, resolve_explicit_provider}
use majordomo_gateway.Provider.Paths.{
  normalize_open_ai_path, is_route, base_url_has_version_segment,
}
use majordomo_gateway.Provider.Translate.{ChatRequest, to_messages_request, is_translation_required}
use majordomo_gateway.Provider.Translate.Laws.{is_system, last_of, to_messages_request-messages}
use majordomo_gateway.Proxy.Respond.{Reply, replied, respond, is_stream, answer_headers}
use majordomo_gateway.Proxy.Respond.Laws.{IsPlain, respond-answered}
use majordomo_gateway.Proxy.Forward.{
  accepts_gzip, is_hop_by_hop, copy_headers, copy_response_headers,
}
use majordomo_gateway.Proxy.Forward.Laws.{values_of, lookup-copy_headers}
use majordomo_gateway.Proxy.Headers.{extract_headers, header, should_consider_routing}
use majordomo_gateway.Proxy.Exchange.{Request, Outgoing, Deps, get_header, and_then, set_header}
use majordomo_gateway.Proxy.Handler.{
  prepare, locate, located, redirect_deprecated, route_request, apply_decision, translate_request,
  strip_version,
}
use majordomo_gateway.Proxy.Handler.Redirect.{Asked}
use majordomo_gateway.Proxy.Handler.Laws.{IsRouted, prepare-IsRouted, prepare-known}
use majordomo_gateway.Provider.Parser.{extract_model, get_parser}
use majordomo_gateway.Proxy.Rewrite.{
  rewrite_routed_request, rewrite_object, finish_rewrite, rewrite_fields, apply_defaults,
}
use majordomo_gateway.Proxy.Route.{DataPolicy, RouteResult, decided}

abbrev key_info : ApiKeyInfo
key_info = record { id = lit "i"; hash = lit "h"; alias = lit "n"; deprecated_model_behavior = [] }

abbrev always_b : Str → DataPolicy → RouteResult
always_b model policy = decided chosen_b

abbrev deps : Deps
deps = record {
  resolve_api_key = λ key. some key_info;
  providers = [];
  deprecated_models = none;
  route = some always_b;
  credential = λ provider. some (lit "s");
  routing = record { default_require_zdr = false; default_data_collection = [] };
  codec = codec;
  model_of = λ body. some (lit "s");
  translate = λ body. none;
}

abbrev client_headers : Dict (List Str)
client_headers =
    (lit "X-Majordomo-Provider", lit "majordomo" ∷ []) ∷ (lit "Authorization", lit "c" ∷ []) ∷ []

abbrev request : Request
request = record {
  path = lit "/chat/completions";
  host = [];
  headers = client_headers;
  body = some (lit "b");
}

abbrev kept : Dict Str
kept = (lit "x-majordomo-provider", lit "majordomo") ∷ []

abbrev sent : Outgoing
sent = record {
  provider = lit "b";
  base_url = lit "u";
  path = lit "/v1/chat/completions";
  headers =
      (lit "X-Majordomo-Provider", lit "majordomo" ∷ [])
      ∷ (lit "Authorization", lit "Bearer s" ∷ [])
      ∷ [];
  body = lit "o";
  redirected = none;
  warned = false;
  decision = some (chosen_b, []);
}

prepare-IsRouted_example :
    (original : Str) × (asked : Str) × (request.body ≡ some original)
    × Asked deps original asked
    × IsRouted deps always_b kept
        (detect (normalize_open_ai_path request.path) kept).provider
        asked
        sent
unfolding prepare extract_headers to_lower has_prefix has_suffix contains and_then locate located
    detect detect_from_path resolve_explicit_provider names normalize_open_ai_path is_route lookup
    insert equal_fold ◌==◌ lit get_header header redirect_deprecated route_request
    should_consider_routing apply_decision set_header extract_model get_parser
    rewrite_routed_request rewrite_object finish_rewrite rewrite_fields apply_defaults sort_strings
    sort_by translate_request is_translation_required strip_version base_url_has_version_segment
prepare-IsRouted_example = prepare-IsRouted deps request sent always_b kept refl refl refl refl

prepare-known_example :
    (deps.resolve_api_key (get_header (lit "X-Majordomo-Key") request.headers) ≢ none)
    × (request.body ≢ none)
    × ((sent.decision ≢ none)
        ⊎ ((headers : Dict Str) × (extract_headers client_headers ≡ some headers)
            × (lit "b" ≡ (detect (normalize_open_ai_path request.path) headers).provider)
            × (lit "b" ≢ unknown)))
unfolding prepare extract_headers to_lower has_prefix has_suffix contains and_then locate located
    detect detect_from_path resolve_explicit_provider names normalize_open_ai_path is_route lookup
    insert equal_fold ◌==◌ lit get_header header redirect_deprecated route_request
    should_consider_routing apply_decision set_header extract_model get_parser
    rewrite_routed_request rewrite_object finish_rewrite rewrite_fields apply_defaults sort_strings
    sort_by translate_request is_translation_required strip_version base_url_has_version_segment
prepare-known_example = prepare-known deps request sent refl

abbrev auth_name : Str
auth_name = lit "Authorization"

lookup-copy_headers_example :
    (lookup auth_name (copy_headers client_headers []) ≡ (
      if has_prefix (to_lower auth_name) (lit "x-majordomo") || is_hop_by_hop (to_lower auth_name)
      then none
      else values_of auth_name client_headers))
    × (lookup auth_name (copy_response_headers client_headers []) ≡ (
        if is_hop_by_hop (to_lower auth_name) || to_lower auth_name == lit "content-encoding"
        then none
        else values_of auth_name client_headers))
unfolding lookup lit ◌==◌
lookup-copy_headers_example = lookup-copy_headers client_headers auth_name (refl, (refl, tt))

abbrev chat : ChatRequest
chat = record {
  model = lit "c";
  messages =
      record { role = lit "system"; content = lit "x" }
      ∷ record { role = lit "user"; content = lit "q" }
      ∷ record { role = lit "system"; content = lit "y" }
      ∷ [];
  max_tokens = none;
  temperature = none;
  top_p = none;
  stream = none;
}

to_messages_request-messages_example :
    ((to_messages_request chat).messages ≡ filter (λ msg. not (is_system msg)) chat.messages)
    × ((to_messages_request chat).system ≡ last_of [] (filter is_system chat.messages))
to_messages_request-messages_example = to_messages_request-messages chat

abbrev reply : Reply
reply = record {
  status = 200;
  headers = (lit "Content-Type", lit "text/event-stream" ∷ []) ∷ [];
  body = lit "data: x";
}

abbrev no_translation : Str → Option Str
no_translation body = none

abbrev tagged : Str → Option Str
tagged body = some (0 ∷ body)

respond-answered_example :
    (reply' : Reply) × (plain : Str) × (replied reply ≡ replied reply')
    × (200 ≡ reply'.status)
    × IsPlain no_translation tagged sent reply' plain
    × ((lit "data: x" ≡ plain)
        ⊎ ((tagged plain ≡ some (lit "data: x"))
            × (accepts_gzip (get_header (lit "Accept-Encoding") sent.headers) ≡ true)
            × (contains (get_header (lit "Content-Type") reply'.headers) (lit "text/event-stream")
                ≡ false)))
unfolding respond is_stream is_translation_required get_header lookup ◌==◌ lit contains has_prefix
    anthropic_openai
respond-answered_example =
    respond-answered no_translation tagged sent (replied reply) 200
      (copy_response_headers reply.headers (answer_headers sent)) (lit "data: x") refl
