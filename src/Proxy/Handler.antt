-- ===== src/Proxy/Handler.antt =====
-- ServeHTTP of internal/proxy/handler.go up to the call of the upstream: what a request is refused
-- with, or what is sent where. Each stage of the handler is a function on what is about to be sent.
pub mod Stages
pub mod Decision
pub mod Redirect
pub mod Laws
use majordomo_gateway.Base.{
  ℕ, Bool, true, false, ◌||◌, Option, none, some, List, [], ◌∷◌, ◌++◌, if◌then◌else◌, Str, lit,
  ◌==◌, trim_prefix, Dict, lookup, insert, delete, is_empty,
}
use majordomo_gateway.Proxy.Exchange.{
  Request, Outgoing, Outcome, refused, crashed, forward, Deps, get_header, set_header, and_then,
}
use majordomo_gateway.Auth.{ApiKeyInfo}
use majordomo_gateway.Provider.Names.{bedrock, bedrock_mantle, unknown}
use majordomo_gateway.Provider.Detect.{ProviderInfo, detect}
use majordomo_gateway.Provider.Paths.{
  normalize_open_ai_path, strip_open_ai_version_prefix, base_url_has_version_segment,
}
use majordomo_gateway.Provider.Parser.{get_parser, extract_model}
use majordomo_gateway.Provider.Translate.{is_translation_required}
use majordomo_gateway.Provider.Usage.Bedrock.{extract_bedrock_model_from_path}
use majordomo_gateway.Proxy.Headers.{
  extract_headers, header, should_consider_routing, RoutingConfig, resolve_data_policy,
}
use majordomo_gateway.Proxy.Region.{resolve_bedrock_region, region, no_region, region_panics}
use majordomo_gateway.Proxy.Rewrite.{
  Codec, override_model, overridden, override_failed, override_panicked, rewrite_routed_request,
  rewritten, failed,
}
use majordomo_gateway.Proxy.Route.{
  DataPolicy, RouteDecision, RouteResult, not_in_catalog, no_usable_endpoint, no_compliant_endpoint,
  decided, panicked,
}

module _ (deps : Deps) where
  -- The base URL of the configuration, or else the provider's.
  unfoldable pub located : Request → Str → Str → Str → Str → Outcome
  located r path body provider base_url =
      let configured = header provider deps.providers in
      forward (record {
        provider = provider;
        base_url = if is_empty configured then base_url else configured;
        path = path;
        headers = r.headers;
        body = body;
        redirected = none;
        warned = false;
        decision = none;
      })

  -- The provider, its region and its base URL.
  unfoldable pub locate : Request → Str → Dict Str → Outcome
  unfolding located
  locate r body headers =
      let path = normalize_open_ai_path r.path in
      let info = detect path headers in
      if info.provider == unknown
      then refused 400
      else if info.provider == bedrock || info.provider == bedrock_mantle
      then elim (resolve_bedrock_region (get_header (lit "X-Majordomo-Bedrock-Region") r.headers)
          r.host) [
            | region name ↦ located r path body info.provider (
                if info.provider == bedrock_mantle
                then lit "https://bedrock-mantle." ++ (name ++ lit ".api.aws/anthropic")
                else lit "https://bedrock-runtime." ++ (name ++ lit ".amazonaws.com"))
            | no_region ↦ refused 400
            | region_panics ↦ crashed
          ]
      else located r path body info.provider info.base_url

  unfoldable pub replace_model : ApiKeyInfo → Str → Str → Outgoing → Outcome
  replace_model info requested replacement o =
      if info.deprecated_model_behavior == lit "redirect"
        || info.deprecated_model_behavior == lit "warn"
      then elim (override_model deps.codec o.body replacement) [
        | overridden body ↦ forward (record o {
          body = body;
          redirected = some (requested, replacement);
          warned = info.deprecated_model_behavior == lit "warn";
        })
        | override_failed ↦ forward o
        | override_panicked ↦ crashed
      ]
      else forward o

  -- The check for a deprecated model.
  unfoldable pub redirect_deprecated : ApiKeyInfo → Outgoing → Outcome
  unfolding replace_model
  redirect_deprecated info o = elim deps.deprecated_models [
    | none ↦ forward o
    | some models ↦
        let requested =
          if o.provider == bedrock
          then extract_bedrock_model_from_path o.path
          else extract_model deps.model_of (get_parser o.provider) o.body in
        elim (lookup requested models) [
          | none ↦ forward o
          | some replacement ↦ replace_model info requested replacement o
        ]
  ]

  -- The credential and the body of a decision.
  unfoldable pub apply_decision : RouteDecision → Outgoing → Outcome
  apply_decision d o = elim (deps.credential d.provider) [
    | none ↦ refused 502
    | some key ↦
        elim (rewrite_routed_request deps.codec o.body d.provider_model_id d.request_defaults) [
          | failed e ↦ refused 500
          | rewritten body applied ↦ forward (record o {
            provider = d.provider;
            base_url = d.base_url;
            headers = set_header (lit "Authorization") (lit "Bearer " ++ key) o.headers;
            body = body;
            decision = some (d, applied);
          })
        ]
  ]

  unfoldable pub route_request : Dict Str → Outgoing → Outcome
  unfolding apply_decision
  route_request headers o = elim deps.route [
    | none ↦ forward o
    | some choose ↦
        if should_consider_routing headers o.provider
        then elim (choose (extract_model deps.model_of (get_parser o.provider) o.body)
            (resolve_data_policy deps.routing headers)) [
              | not_in_catalog ↦ refused 400
              | no_usable_endpoint ↦ refused 502
              | no_compliant_endpoint ↦ refused 502
              | decided d ↦ apply_decision d o
              | panicked ↦ crashed
            ]
        else forward o
  ]

  -- Authorization: Bearer <key> as x-api-key: <key>
  unfoldable pub convert_authorization : Dict (List Str) → Dict (List Str)
  convert_authorization h =
      let auth_header = get_header (lit "Authorization") h in
      if is_empty auth_header
      then h
      else set_header (lit "Anthropic-Version") (lit "2023-06-01") (
          delete (lit "Authorization")
            (set_header (lit "X-Api-Key") (trim_prefix auth_header (lit "Bearer ")) h))

  -- `original` is the body as the client sent it.
  unfoldable pub translate_request : Str → Outgoing → Outgoing
  unfolding convert_authorization
  translate_request original o =
      if is_translation_required o.provider
      then elim (deps.translate original) [
        | none ↦ record o { headers = convert_authorization o.headers }
        | some (body, path) ↦ record o {
          body = body;
          path = path;
          headers = convert_authorization o.headers;
        }
      ]
      else o

  unfoldable pub strip_version : Outgoing → Outgoing
  strip_version o =
      if base_url_has_version_segment o.provider
      then record o { path = strip_open_ai_version_prefix o.path }
      else o

  -- The stages behind the body's reading.
  unfoldable pub process : ApiKeyInfo → Request → Str → Dict Str → Outcome
  process info r body headers =
      and_then
        (and_then (and_then (locate r body headers) (redirect_deprecated info))
          (route_request headers))
        (λ o. forward (strip_version (translate_request body o)))

  unfoldable pub prepare : Request → Outcome
  unfolding process
  prepare r = elim (deps.resolve_api_key (get_header (lit "X-Majordomo-Key") r.headers)) [
    | none ↦ refused 401
    | some info ↦ elim r.body [
      | none ↦ refused 400
      | some body ↦ elim (extract_headers r.headers) [
        | none ↦ crashed
        | some headers ↦ process info r body headers
      ]
    ]
  ]
