-- ===== src/Proxy/Rewrite.antt =====
-- RewriteRoutedRequest of internal/proxy/providerrouter.go and OverrideModel of
-- internal/proxy/override.go. The codec is encoding/json: what a body unmarshals to as a map of raw
-- values, and how such a map and a string are marshalled.
pub mod Laws
use majordomo_gateway.Base.{
  Bool, true, false, ◌&&◌, ◌||◌, Option, none, some, List, [], ◌∷◌, ◌++◌, if◌then◌else◌, is_some,
  Str, lit, ◌==◌, Dict, lookup, insert, sort_strings,
}

-- Unmarshalling into a map fails, gives the nil map (for null), or gives a map.
pub data Unmarshalled : Type 0 where
  malformed null : Unmarshalled
  object : Dict Str → Unmarshalled

pub record Codec : Type 0 where
  pub unmarshal : Str → Unmarshalled
  pub marshal : Dict Str → Option Str
  pub marshal_string : Str → Option Str

unfoldable pub is_reasoning_control : Str → Bool
is_reasoning_control field =
    field == lit "reasoning_effort" || field == lit "reasoning" || field == lit "thinking"

-- Some reasoning control field is set.
unfoldable pub sets_reasoning : Dict Str → Bool
sets_reasoning req =
    is_some (lookup (lit "reasoning_effort") req)
    || is_some (lookup (lit "reasoning") req)
    || is_some (lookup (lit "thinking") req)

-- The loop over the defaults: the body's fields, and the names that were added.
unfoldable pub apply_defaults : Bool → Dict Str → List Str → Dict Str → Dict Str × List Str
unfolding is_reasoning_control
apply_defaults caller_set req applied [] = (req, applied)
apply_defaults caller_set req applied ((field, value) ∷ defaults) =
    let skip = is_some (lookup field req) || is_reasoning_control field && caller_set in
    apply_defaults caller_set (if skip then req else insert field value req)
      (if skip then applied else applied ++ field ∷ []) defaults

-- The body's fields between the two codec calls.
unfoldable pub rewrite_fields : Str → Dict Str → Dict Str → Dict Str × List Str
unfolding apply_defaults sets_reasoning
rewrite_fields model_json defaults fields =
    let req = insert (lit "model") model_json fields in
    let (req', applied) = apply_defaults (sets_reasoning req) req [] defaults in
    (req', sort_strings applied)

pub data RewriteError : Type 0 where
  unmarshal_body not_an_object marshal_model marshal_body : RewriteError

pub data Rewritten : Type 0 where
  rewritten : Str → List Str → Rewritten
  failed : RewriteError → Rewritten

-- What OverrideModel does; a write to the nil map panics.
pub data Overridden : Type 0 where
  overridden : Str → Overridden
  override_failed override_panicked : Overridden

module _ (json : Codec) where
  unfoldable pub finish_rewrite : Dict Str × List Str → Rewritten
  finish_rewrite (req, applied) = elim (json.marshal req) [
    | none ↦ failed marshal_body
    | some body ↦ rewritten body applied
  ]

  unfoldable pub rewrite_object : Str → Dict Str → Dict Str → Rewritten
  unfolding finish_rewrite rewrite_fields
  rewrite_object provider_model_id defaults fields = elim (json.marshal_string provider_model_id) [
    | none ↦ failed marshal_model
    | some model_json ↦ finish_rewrite (rewrite_fields model_json defaults fields)
  ]

  unfoldable pub rewrite_routed_request : Str → Str → Dict Str → Rewritten
  unfolding rewrite_object
  rewrite_routed_request body provider_model_id defaults = elim (json.unmarshal body) [
    | malformed ↦ failed unmarshal_body
    | null ↦ failed not_an_object
    | object fields ↦ rewrite_object provider_model_id defaults fields
  ]

  unfoldable pub override_object : Str → Dict Str → Overridden
  override_object model_json fields = elim (json.marshal (insert (lit "model") model_json fields)) [
    | none ↦ override_failed
    | some body ↦ overridden body
  ]

  unfoldable pub override_model : Str → Str → Overridden
  unfolding override_object
  override_model body new_model = elim (json.unmarshal body) [
    | malformed ↦ override_failed
    | null ↦ elim (json.marshal_string new_model) [
      | none ↦ override_failed
      | some model_json ↦ override_panicked
    ]
    | object fields ↦ elim (json.marshal_string new_model) [
      | none ↦ override_failed
      | some model_json ↦ override_object model_json fields
    ]
  ]
