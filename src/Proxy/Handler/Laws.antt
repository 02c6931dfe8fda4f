-- ===== src/Proxy/Handler/Laws.antt =====
-- What a request that reaches an upstream has passed, and where a routed one goes.
use mathlib.Core.Path.{subst}
use majordomo_gateway.Base.{
  ◌⊎◌, inl, inr, true, false, ◌≡◌, ◌≢◌, sym, ap, ◌∙◌, none, some, List, [], ◌∷◌, ◌++◌, arith, Str,
  lit, Dict, lookup, lookup-insert, eq_refl, some_injective, option_clash, Bool-cases, Option-cases,
  eq_iff,
}
use majordomo_gateway.Provider.Detect.{detect}
use majordomo_gateway.Provider.Paths.{normalize_open_ai_path}
use majordomo_gateway.Provider.Translate.{is_translation_required}
use majordomo_gateway.Proxy.Headers.{extract_headers, should_consider_routing, resolve_data_policy}
use majordomo_gateway.Proxy.Route.{DataPolicy, RouteDecision, RouteResult, decided}
use majordomo_gateway.Proxy.Exchange.{Request, Outgoing, forward, Deps, get_header, set_header}
use majordomo_gateway.Proxy.Handler.{
  located, locate, route_request, translate_request, strip_version, process, prepare, extract_model,
  get_parser, unknown, rewrite_routed_request, rewritten,
}
use majordomo_gateway.Proxy.Handler.Decision.{
  apply_decision-forward, route_request-decided, apply_decision-decision,
}
use majordomo_gateway.Proxy.Handler.Redirect.{Asked, redirect_deprecated-body}
use majordomo_gateway.Proxy.Handler.Stages.{
  forward_injective, and_then-forward, prepare-stages, locate-provider,
  redirect_deprecated-provider,
}

module _ (deps : Deps) where
  -- What holds of what is sent for a routed request, where `surface` is the provider that the path and
  -- the headers name, and `asked` is the body with which the router was asked.
  pub record IsRouted (choose : Str → DataPolicy → RouteResult) (headers : Dict Str)
      (surface asked : Str) (o : Outgoing) : Type 0 where
    pub chosen : RouteDecision
    pub key : Str
    pub body : Str
    pub applied : List Str
    pub decides :
        choose
          (extract_model deps.model_of (get_parser surface) asked)
          (resolve_data_policy deps.routing headers)
        ≡ decided chosen
    pub stored : deps.credential chosen.provider ≡ some key
    pub rewrites :
        rewrite_routed_request deps.codec asked chosen.provider_model_id chosen.request_defaults
        ≡ rewritten body applied
    pub provider : o.provider ≡ chosen.provider
    pub base_url : o.base_url ≡ chosen.base_url
    -- the rewritten body and the stored credential are sent, unless the provider needs a translation
    pub sends :
        (is_translation_required chosen.provider ≡ true)
        ⊎ ((o.body ≡ body)
            × (lookup (lit "Authorization") o.headers ≡ some ((lit "Bearer " ++ key) ∷ [])))

  last_stages-provider :
      (body : Str) (o : Outgoing)
      → ((strip_version deps (translate_request deps body o)).provider ≡ o.provider)
        × ((strip_version deps (translate_request deps body o)).base_url ≡ o.base_url)
        × (is_translation_required o.provider ≡ false
            → ((strip_version deps (translate_request deps body o)).headers ≡ o.headers)
              × ((strip_version deps (translate_request deps body o)).body ≡ o.body))
  unfolding strip_version translate_request
  last_stages-provider body o = ground arith

  lookup-set_header :
      (key value : Str) (h : Dict (List Str))
      → lookup key (set_header key value h) ≡ some (value ∷ [])
  unfolding set_header
  lookup-set_header key value h = ground (arith, lookup-insert key key (value ∷ []) h, eq_refl key)

  route_request-IsRouted :
      (choose : Str → DataPolicy → RouteResult) (headers : Dict Str) (body : Str) (q p : Outgoing)
      → deps.route ≡ some choose
      → should_consider_routing headers q.provider ≡ true
      → route_request deps headers q ≡ forward p
      → IsRouted choose headers q.provider q.body
          (strip_version deps (translate_request deps body p))
  route_request-IsRouted choose headers body q p e w routes =
      let (d, decides, applies) = route_request-decided deps choose headers q p e w routes in
      let (key, out, applied, stored, rewrites, same, base, sent, auth) =
        apply_decision-forward deps d q p applies in
      let (kept_provider, kept_base, kept) = last_stages-provider body p in
      record {
        chosen = d;
        key = key;
        body = out;
        applied = applied;
        decides = decides;
        stored = stored;
        rewrites = rewrites;
        provider = kept_provider ∙ same;
        base_url = kept_base ∙ base;
        sends = elim (Bool-cases (is_translation_required d.provider)) [
          | inl t ↦ inl t
          | inr t ↦
              let (headers', body') = kept (ap is_translation_required same ∙ t) in
              inr (
                body' ∙ sent,
                ap (lookup (lit "Authorization")) (headers' ∙ auth)
                    ∙ lookup-set_header (lit "Authorization") (lit "Bearer " ++ key) q.headers,
              )
        ];
      }

  locate-body :
      (r : Request) (body : Str) (headers : Dict Str) (o : Outgoing)
      → locate deps r body headers ≡ forward o
      → o.body ≡ body
  unfolding locate located
  locate-body r body headers o h = ground arith

  locate-known :
      (r : Request) (body : Str) (headers : Dict Str) (o : Outgoing)
      → locate deps r body headers ≡ forward o
      → o.provider ≢ unknown
  unfolding locate located
  locate-known r body headers o h =
      ground (arith, eq_iff (detect (normalize_open_ai_path r.path) headers).provider unknown)

  -- A stage that routes leaves a decision, and one that does not leaves the provider.
  route_request-provider :
      (headers : Dict Str) (o p : Outgoing)
      → route_request deps headers o ≡ forward p
      → (p.decision ≢ none) ⊎ (p.provider ≡ o.provider)
  unfolding route_request
  route_request-provider headers o p h = elim (Option-cases deps.route) [
    | inl e ↦ inr (ap (λ x. x.provider) (sym (forward_injective (rw (route_request, e) at h))))
    | inr (choose, e) ↦ elim (Bool-cases (should_consider_routing headers o.provider)) [
      | inl w ↦
          let (d, _, applies) = route_request-decided deps choose headers o p e w h in
          inl (apply_decision-decision deps d o p applies)
      | inr w ↦ inr (ap (λ x. x.provider) (sym (forward_injective (rw (route_request, e, w) at h))))
    ]
  ]

  last_stages-decision :
      (body : Str) (o : Outgoing)
      → (strip_version deps (translate_request deps body o)).decision ≡ o.decision
  unfolding strip_version translate_request
  last_stages-decision body o = ground arith

  -- A request that reaches an upstream has a key that the resolver knows, a readable body, and a
  -- provider that its path and headers name, unless it was routed.
  pub prepare-known :
      (r : Request) (o : Outgoing)
      → prepare deps r ≡ forward o
      → (deps.resolve_api_key (get_header (lit "X-Majordomo-Key") r.headers) ≢ none)
        × (r.body ≢ none)
        × ((o.decision ≢ none)
            ⊎ ((headers : Dict Str) × (extract_headers r.headers ≡ some headers)
                × (o.provider ≡ (detect (normalize_open_ai_path r.path) headers).provider)
                × (o.provider ≢ unknown)))
  unfolding process
  prepare-known r o h =
      let (info, body, headers, known, read, extracted, runs) = prepare-stages deps r o h in
      let (p, before, last) = and_then-forward _ _ o runs in
      let (q, first, routes) = and_then-forward _ _ p before in
      let (s, start, second) = and_then-forward _ _ q first in
      let sent = forward_injective last in
      let kept = ap (λ x. x.decision) (sym sent) ∙ last_stages-decision body p in
      let same = ap (λ x. x.provider) (sym sent) ∙ (last_stages-provider body p).0 in
      let detected =
        sym (redirect_deprecated-provider deps info s q second)
        ∙ locate-provider deps r body headers s start in
      let found = locate-known r body headers s start in
      (
        λ e. option_clash (sym e ∙ known),
        λ e. option_clash (sym e ∙ read),
        elim (route_request-provider headers q p routes) [
          | inl routed ↦ inl (λ e. routed (sym kept ∙ e))
          | inr unchanged ↦
              let provider = same ∙ unchanged in
              inr (
                headers,
                extracted,
                provider ∙ detected,
                λ e. found (redirect_deprecated-provider deps info s q second ∙ sym provider ∙ e),
              )
        ],
      )

  -- Where routing is enabled and the caller opts in on the OpenAI surface, a request that reaches an
  -- upstream goes to the endpoint that the router decided on, for the model of the body and under the
  -- data policy of the configuration and the headers, and to no other. The body is the client's, in
  -- which the model may have been replaced as deprecated. Unless the provider needs a translation, what
  -- is sent is this body rewritten for the endpoint, with the gateway's stored credential for the
  -- provider in place of the caller's.
  pub prepare-IsRouted :
      (r : Request) (o : Outgoing) (choose : Str → DataPolicy → RouteResult) (headers : Dict Str)
      → prepare deps r ≡ forward o
      → deps.route ≡ some choose
      → extract_headers r.headers ≡ some headers
      → should_consider_routing headers (detect (normalize_open_ai_path r.path) headers).provider
        ≡ true
      → (original : Str) × (asked : Str) × (r.body ≡ some original)
        × Asked deps original asked
        × IsRouted choose headers (detect (normalize_open_ai_path r.path) headers).provider asked o
  unfolding process
  prepare-IsRouted r o choose headers' h e x w =
      let (info, body, headers, known, read, extracted, runs) = prepare-stages deps r o h in
      let (p, before, last) = and_then-forward _ _ o runs in
      let (q, first, routes) = and_then-forward _ _ p before in
      let (s, start, second) = and_then-forward _ _ q first in
      let same = some_injective (sym extracted ∙ x) in
      let surface : Dict Str → Str = λ hs. (detect (normalize_open_ai_path r.path) hs).provider in
      let detected =
        sym (redirect_deprecated-provider deps info s q second)
        ∙ locate-provider deps r body headers s start in
      let wants = subst (λ hs. should_consider_routing hs (surface hs) ≡ true) (sym same) w in
      let asked =
        subst (λ b. Asked deps b q.body) (locate-body r body headers s start)
          (redirect_deprecated-body deps info s q second) in
      let routed =
        route_request-IsRouted choose headers body q p e
          (subst (λ v. should_consider_routing headers v ≡ true) (sym detected) wants) routes in
      (
        body,
        q.body,
        read,
        asked,
        subst (λ hs. IsRouted choose hs (surface hs) q.body o) same
            (subst (λ v. IsRouted choose headers v q.body o) detected
              (subst (IsRouted choose headers q.provider q.body) (forward_injective last) routed)),
      )
