-- ===== src/Proxy/Exchange.antt =====
-- What the handler of internal/proxy/handler.go gets, holds and makes: the request, what is sent, how it
-- ends, and the operations on header maps.
use majordomo_gateway.Base.{ℕ, Bool, Option, none, some, List, [], ◌∷◌, Str, Dict, lookup, insert}
use majordomo_gateway.Auth.{ApiKeyInfo}
use majordomo_gateway.Proxy.Headers.{RoutingConfig}
use majordomo_gateway.Proxy.Rewrite.{Codec}
use majordomo_gateway.Proxy.Route.{DataPolicy, RouteDecision, RouteResult}

-- A header map has its names in canonical form. The body is `none` where it cannot be read.
pub record Request : Type 0 where
  pub path : Str
  pub host : Str
  pub headers : Dict (List Str)
  pub body : Option Str

-- What is about to be sent, with what the log and the client are told: the model that was redirected
-- and its replacement, and the decision with the defaults that were added.
pub record Outgoing : Type 0 where
  pub provider : Str
  pub base_url : Str
  pub path : Str
  pub headers : Dict (List Str)
  pub body : Str
  pub redirected : Option (Str × Str)
  pub warned : Bool
  pub decision : Option (RouteDecision × List Str)

pub data Outcome : Type 0 where
  refused : ℕ → Outcome
  crashed : Outcome
  forward : Outgoing → Outcome

-- What the handler holds and calls. `resolve` and `credential` give nothing on an error; the router is
-- there where routing is enabled, the map of models where there is one.
pub record Deps : Type 0 where
  pub resolve_api_key : Str → Option ApiKeyInfo
  pub providers : Dict Str
  pub deprecated_models : Option (Dict Str)
  pub route : Option (Str → DataPolicy → RouteResult)
  pub credential : Str → Option Str
  pub routing : RoutingConfig
  pub codec : Codec
  pub model_of : Str → Option Str
  pub translate : Str → Option (Str × Str)

-- h.Get(key)
unfoldable pub get_header : Str → Dict (List Str) → Str
get_header key h = elim (lookup key h) [
  | none ↦ []
  | some values ↦ elim values [ [] ↦ [] | ◌∷◌ v vs ↦ v ]
]

-- h.Set(key, value)
unfoldable pub set_header : Str → Str → Dict (List Str) → Dict (List Str)
set_header key value h = insert key (value ∷ []) h

-- A stage behind another.
unfoldable pub and_then : Outcome → (Outgoing → Outcome) → Outcome
and_then (refused status) next = refused status
and_then crashed next = crashed
and_then (forward o) next = next o
