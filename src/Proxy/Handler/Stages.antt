-- ===== src/Proxy/Handler/Stages.antt =====
-- The stages of the handler one by one: what each that sends something has kept or set.
use majordomo_gateway.Base.{refl, ◌≡◌, ap, some, arith, Str, lit, Dict}
use majordomo_gateway.Auth.{ApiKeyInfo}
use majordomo_gateway.Provider.Detect.{detect}
use majordomo_gateway.Provider.Paths.{normalize_open_ai_path}
use majordomo_gateway.Proxy.Headers.{extract_headers}
use majordomo_gateway.Proxy.Exchange.{
  Request, Outgoing, Outcome, refused, crashed, forward, Deps, get_header, and_then,
}
use majordomo_gateway.Proxy.Handler.{
  located, locate, replace_model, redirect_deprecated, process, prepare,
}

outgoing_of : Outgoing → Outcome → Outgoing
outgoing_of d (forward o) = o
outgoing_of d _ = d

pub forward_injective : {o p : Outgoing} → forward o ≡ forward p → o ≡ p
unfolding outgoing_of
forward_injective {o} h = ap (outgoing_of o) h

-- A chain of stages that sends something has passed each of them.
pub and_then-forward :
    (x : Outcome) (next : Outgoing → Outcome) (o : Outgoing)
    → and_then x next ≡ forward o
    → (p : Outgoing) × (x ≡ forward p) × (next p ≡ forward o)
unfolding and_then
and_then-forward (refused status) next o h = cc
and_then-forward crashed next o h = cc
and_then-forward (forward p) next o h = (p, refl, h)

module _ (deps : Deps) where
  pub prepare-stages :
      (r : Request) (o : Outgoing)
      → prepare deps r ≡ forward o
      → (info : ApiKeyInfo) × (body : Str) × (headers : Dict Str) × (deps.resolve_api_key
            (get_header (lit "X-Majordomo-Key") r.headers)
          ≡ some info)
        × (r.body ≡ some body)
        × (extract_headers r.headers ≡ some headers)
        × (process deps info r body headers ≡ forward o)
  unfolding prepare
  prepare-stages r o h = ground arith

  -- The provider of the request comes from its path and its headers.
  pub locate-provider :
      (r : Request) (body : Str) (headers : Dict Str) (o : Outgoing)
      → locate deps r body headers ≡ forward o
      → o.provider ≡ (detect (normalize_open_ai_path r.path) headers).provider
  unfolding locate located
  locate-provider r body headers o h = ground arith

  pub redirect_deprecated-provider :
      (info : ApiKeyInfo) (o p : Outgoing)
      → redirect_deprecated deps info o ≡ forward p
      → o.provider ≡ p.provider
  unfolding redirect_deprecated replace_model
  redirect_deprecated-provider info o p h = ground arith
