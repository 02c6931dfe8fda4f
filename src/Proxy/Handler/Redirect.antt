-- ===== src/Proxy/Handler/Redirect.antt =====
-- The body of a request after the stage of proxy/handler.go that replaces a deprecated model.
use majordomo_gateway.Base.{
  ◌⊎◌, inl, inr, refl, ◌≡◌, sym, ap, ◌∙◌, some, Str, lit, lookup, Bool-cases, Option-cases,
}
use majordomo_gateway.Proxy.Exchange.{Outgoing, crashed, forward, Deps}
use majordomo_gateway.Base.{◌||◌, ◌==◌, if◌then◌else◌}
use majordomo_gateway.Provider.Names.{bedrock}
use majordomo_gateway.Provider.Usage.Bedrock.{extract_bedrock_model_from_path}
use majordomo_gateway.Proxy.Rewrite.{Overridden, override_failed, override_panicked}
use majordomo_gateway.Proxy.Handler.{
  extract_model, get_parser, redirect_deprecated, override_model, replace_model, overridden,
  ApiKeyInfo,
}
use majordomo_gateway.Proxy.Handler.Stages.{forward_injective}

module _ (deps : Deps) where
  -- The body with which the router is asked: the client's, or with the model of it replaced.
  abbrev pub Asked : Str → Str → Type 0
  Asked original asked =
      (asked ≡ original)
      ⊎ ((replacement : Str) × (override_model deps.codec original replacement ≡ overridden asked))

  overridden-forward :
      (result : Overridden) (o : Outgoing) (next : Str → Outgoing) (p : Outgoing)
      → (elim result [
        | overridden body ↦ forward (next body)
        | override_failed ↦ forward o
        | override_panicked ↦ crashed
      ])
        ≡ forward p
      → (o ≡ p) ⊎ ((body : Str) × (result ≡ overridden body) × (next body ≡ p))
  overridden-forward (overridden body) o next p h = inr (body, refl, forward_injective h)
  overridden-forward override_failed o next p h = inl (forward_injective h)
  overridden-forward override_panicked o next p h = cc

  replace_model-body :
      (info : ApiKeyInfo) (requested replacement : Str) (o p : Outgoing)
      → replace_model deps info requested replacement o ≡ forward p
      → Asked o.body p.body
  unfolding replace_model
  replace_model-body info requested replacement o p h =
      elim (Bool-cases (
        info.deprecated_model_behavior == lit "redirect"
        || info.deprecated_model_behavior == lit "warn")) [
          | inl e ↦
              elim (overridden-forward (override_model deps.codec o.body replacement) o
                (λ body. record o {
                  body = body;
                  redirected = some (requested, replacement);
                  warned = info.deprecated_model_behavior == lit "warn";
                })
                p (rw (replace_model, e) at h)) [
                  | inl same ↦ inl (ap (λ x. x.body) (sym same))
                  | inr (body, overrides, same) ↦
                      inr (replacement, overrides ∙ ap (λ x. overridden x.body) same)
                ]
          | inr e ↦ inl (ap (λ x. x.body) (sym (forward_injective (rw (replace_model, e) at h))))
        ]

  pub redirect_deprecated-body :
      (info : ApiKeyInfo) (o p : Outgoing)
      → redirect_deprecated deps info o ≡ forward p
      → Asked o.body p.body
  unfolding redirect_deprecated
  redirect_deprecated-body info o p h = elim (Option-cases deps.deprecated_models) [
    | inl e ↦ inl (ap (λ x. x.body) (sym (forward_injective (rw (redirect_deprecated, e) at h))))
    | inr (models, e) ↦
        let requested =
          if o.provider == bedrock
          then extract_bedrock_model_from_path o.path
          else extract_model deps.model_of (get_parser o.provider) o.body in
        elim (Option-cases (lookup requested models)) [
          | inl f ↦
              inl (ap (λ x. x.body) (sym (forward_injective (rw (redirect_deprecated, e, f) at h))))
          | inr (replacement, f) ↦
              replace_model-body info requested replacement o p
                (rw (redirect_deprecated, e, f) at h)
        ]
  ]
