-- ===== src/Proxy/Handler/Decision.antt =====
-- What a request has passed that the routing stage of proxy/handler.go lets through.
use majordomo_gateway.Base.{
  inl, inr, true, refl, ◌≡◌, ◌≢◌, sym, ap, none, some, List, ◌++◌, arith, Str, lit, Dict,
  Option-cases, ℕ,
}
use majordomo_gateway.Proxy.Headers.{should_consider_routing, resolve_data_policy}
use majordomo_gateway.Proxy.Route.{
  DataPolicy, RouteDecision, RouteResult, not_in_catalog, no_usable_endpoint, no_compliant_endpoint,
  decided, panicked,
}
use majordomo_gateway.Proxy.Exchange.{Outgoing, refused, crashed, forward, Deps, set_header}
use majordomo_gateway.Base.{ℕ}
use majordomo_gateway.Proxy.Rewrite.{Rewritten, failed}
use majordomo_gateway.Proxy.Handler.{
  apply_decision, route_request, extract_model, get_parser, rewrite_routed_request, rewritten,
}
use majordomo_gateway.Proxy.Handler.Stages.{forward_injective}

module _ (deps : Deps) where
  refused-forward : (status : ℕ) (p : Outgoing) → refused status ≢ forward p
  refused-forward status p h = cc

  rewritten-forward :
      (result : Rewritten) (next : Str → List Str → Outgoing) (p : Outgoing)
      → (elim result [
        | failed e ↦ refused 500
        | rewritten body applied ↦ forward (next body applied)
      ])
        ≡ forward p
      → (body : Str) × (applied : List Str) × (result ≡ rewritten body applied)
        × (p ≡ next body applied)
  rewritten-forward (failed e) next p h = cc
  rewritten-forward (rewritten body applied) next p h =
      (body, applied, refl, sym (forward_injective h))

  pub apply_decision-forward :
      (d : RouteDecision) (o p : Outgoing)
      → apply_decision deps d o ≡ forward p
      → (key : Str) × (body : Str) × (applied : List Str) × (deps.credential d.provider ≡ some key)
        × (rewrite_routed_request deps.codec o.body d.provider_model_id d.request_defaults
            ≡ rewritten body applied)
        × (p.provider ≡ d.provider)
        × (p.base_url ≡ d.base_url)
        × (p.body ≡ body)
        × (p.headers ≡ set_header (lit "Authorization") (lit "Bearer " ++ key) o.headers)
  unfolding apply_decision
  apply_decision-forward d o p h = elim (Option-cases (deps.credential d.provider)) [
    | inl e ↦ absurd (refused-forward 502 p (rw (apply_decision, e) at h))
    | inr (key, e) ↦
        let (body, applied, rewrites, same) =
          rewritten-forward
            (rewrite_routed_request deps.codec o.body d.provider_model_id d.request_defaults)
            (λ body applied. record o {
              provider = d.provider;
              base_url = d.base_url;
              headers = set_header (lit "Authorization") (lit "Bearer " ++ key) o.headers;
              body = body;
              decision = some (d, applied);
            })
            p (rw (apply_decision, e) at h) in
        (
          key,
          body,
          applied,
          e,
          rewrites,
          ap (λ x. x.provider) same,
          ap (λ x. x.base_url) same,
          ap (λ x. x.body) same,
          ap (λ x. x.headers) same,
        )
  ]

  result-decided :
      (result : RouteResult) (o p : Outgoing)
      → (elim result [
        | not_in_catalog ↦ refused 400
        | no_usable_endpoint ↦ refused 502
        | no_compliant_endpoint ↦ refused 502
        | decided d ↦ apply_decision deps d o
        | panicked ↦ crashed
      ])
        ≡ forward p
      → (d : RouteDecision) × (result ≡ decided d) × (apply_decision deps d o ≡ forward p)
  result-decided not_in_catalog o p h = cc
  result-decided no_usable_endpoint o p h = cc
  result-decided no_compliant_endpoint o p h = cc
  result-decided (decided d) o p h = (d, refl, h)
  result-decided panicked o p h = cc

  pub route_request-decided :
      (choose : Str → DataPolicy → RouteResult) (headers : Dict Str) (o p : Outgoing)
      → deps.route ≡ some choose
      → should_consider_routing headers o.provider ≡ true
      → route_request deps headers o ≡ forward p
      → (d : RouteDecision) × (choose
            (extract_model deps.model_of (get_parser o.provider) o.body)
            (resolve_data_policy deps.routing headers)
          ≡ decided d)
        × (apply_decision deps d o ≡ forward p)
  unfolding route_request
  route_request-decided choose headers o p e w h =
      let model = extract_model deps.model_of (get_parser o.provider) o.body in
      result-decided (choose model (resolve_data_policy deps.routing headers)) o p
        (rw (route_request, e, w) at h)

  pub apply_decision-decision :
      (d : RouteDecision) (o p : Outgoing) → apply_decision deps d o ≡ forward p → p.decision ≢ none
  unfolding apply_decision
  apply_decision-decision d o p h = ground arith
