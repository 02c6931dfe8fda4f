-- ===== src/Proxy/Rewrite/Laws.antt =====
-- Which fields a routed request has, and which are reported as added.
use mathlib.Core.Path.{subst}
use majordomo_gateway.Base.{
  ◌≡◌, ◌≢◌, refl, ◌↔◌, ◌⊎◌, Bool, false, ◌&&◌, ◌||◌, Option, none, some, List, [], ◌∷◌, ◌++◌, arith,
  Memᴰ, if◌then◌else◌, is_some, Str, lit, ◌==◌, eq_iff, Dict, lookup, insert, lookup-insert,
  or_else, Distinct, sort_strings, Sorted, str_lt, sort_strings-Sorted, Memᴰ-append_single,
  Memᴰ-sort_by, sort_by, sort_by-Memᴰ, is_empty-Memᴰ,
}
use majordomo_gateway.Proxy.Rewrite.{
  is_reasoning_control, sets_reasoning, apply_defaults, rewrite_fields, Codec, malformed, null,
  object, failed, rewritten, not_an_object, overridden, override_panicked, override_model,
  override_object, rewrite_routed_request, rewrite_object, finish_rewrite, rewritten, failed,
  not_an_object,
}

-- A default that may be added: not a reasoning control where the caller has set one.
abbrev pub offered : Bool → Dict Str → Str → Option Str
offered caller_set defaults k =
    if is_reasoning_control k && caller_set then none else lookup k defaults

lookup-apply_defaults :
    (caller_set : Bool) (req : Dict Str) (applied : List Str) (defaults : Dict Str) (k : Str)
    → Distinct defaults
    → lookup k (apply_defaults caller_set req applied defaults).0
      ≡ or_else (lookup k req) (offered caller_set defaults k)
unfolding apply_defaults lookup
lookup-apply_defaults cs req applied [] k d = ground arith
lookup-apply_defaults cs req applied ((f, v) ∷ defaults) k (fresh, d) =
    let skip = is_some (lookup f req) || is_reasoning_control f && cs in
    ground (
      arith,
      lookup-apply_defaults cs (if skip then req else insert f v req)
          (if skip then applied else applied ++ f ∷ []) defaults k d,
      lookup-insert f k v req,
      eq_iff f k,
    )

-- Setting the model sets no reasoning control.
sets_reasoning-insert_model :
    (v : Str) (fields : Dict Str)
    → sets_reasoning (insert (lit "model") v fields) ≡ sets_reasoning fields
unfolding sets_reasoning lit ◌==◌
sets_reasoning-insert_model v fields = rw (
  lookup-insert (lit "model") (lit "reasoning_effort") v fields,
  lookup-insert (lit "model") (lit "reasoning") v fields,
  lookup-insert (lit "model") (lit "thinking") v fields,
)

-- The caller always wins, and the model is always the provider's: each field of the routed body
-- is the model that was chosen, or what the caller sent, or else the endpoint's default, unless
-- that is a reasoning control and the caller has set one of them. No field has two defaults.
pub lookup-rewrite_fields :
    (model_json : Str) (defaults fields : Dict Str) (k : Str)
    → Distinct defaults
    → lookup k (rewrite_fields model_json defaults fields).0 ≡ (
        if lit "model" == k
        then some model_json
        else or_else
            (lookup k fields)
            (if is_reasoning_control k && sets_reasoning fields then none else lookup k defaults))
unfolding rewrite_fields
lookup-rewrite_fields model_json defaults fields k d =
    let req = insert (lit "model") model_json fields in
    ground (
      arith,
      lookup-apply_defaults (sets_reasoning req) req [] defaults k d,
      lookup-insert (lit "model") k model_json fields,
      sets_reasoning-insert_model model_json fields,
    )

-- A name is added to `applied` for each field that the loop sets, and for no other.
Memᴰ-apply_defaults :
    (cs : Bool) (req : Dict Str) (applied : List Str) (defaults : Dict Str) (f : Str)
    → Distinct defaults
    → Memᴰ f (apply_defaults cs req applied defaults).1
      ↔ (Memᴰ f applied ⊎ ((lookup f req ≡ none) × (offered cs defaults f ≢ none)))
unfolding apply_defaults lookup
Memᴰ-apply_defaults cs req applied [] f d = ground arith
Memᴰ-apply_defaults cs req applied ((g, v) ∷ defaults) f (fresh, d) =
    let skip = is_some (lookup g req) || is_reasoning_control g && cs in
    ground (
      arith,
      Memᴰ-apply_defaults cs (if skip then req else insert g v req)
          (if skip then applied else applied ++ g ∷ []) defaults f d,
      lookup-insert g f v req,
      eq_iff g f,
      Memᴰ-append_single f g applied,
    )

lookup_model_self :
    (v : Str) (fields : Dict Str) (f : Str)
    → (lookup f (insert (lit "model") v fields) ≡ none)
      ↔ (((lit "model" == f) ≡ false) × (lookup f fields ≡ none))
lookup_model_self v fields f = ground (arith, lookup-insert (lit "model") f v fields)

-- The same, of the loop's names put in order, whatever the caller was found to set.
applied_iff :
    (cs : Bool) (v : Str) (defaults fields : Dict Str) (f : Str)
    → Distinct defaults
    → Memᴰ f (sort_strings (apply_defaults cs (insert (lit "model") v fields) [] defaults).1)
      ↔ (((lit "model" == f) ≡ false) × (lookup f fields ≡ none) × (offered cs defaults f ≢ none))
unfolding sort_strings
applied_iff cs v defaults fields f d =
    let req = insert (lit "model") v fields in
    let names = (apply_defaults cs req [] defaults).1 in
    ground (
      arith,
      Memᴰ-apply_defaults cs req [] defaults f d,
      lookup_model_self v fields f,
      Memᴰ-sort_by str_lt {a = f} names,
      sort_by-Memᴰ str_lt {a = f} {xs = names},
      is_empty-Memᴰ [] {a = f} refl,
    )

-- The names that are reported as added are in order, and are those of the fields that are not the
-- model, that the caller did not send, and for which the endpoint has a default: one that is no
-- reasoning control, if the caller has set any of these. No field has two defaults.
rewrite_fields_applied :
    (model_json : Str) (defaults fields : Dict Str)
    → Distinct defaults
    → Sorted str_lt (rewrite_fields model_json defaults fields).1
      × ((f : Str)
          → Memᴰ f (rewrite_fields model_json defaults fields).1 ↔ (
              ((lit "model" == f) ≡ false)
              × (lookup f fields ≡ none)
              × (offered (sets_reasoning fields) defaults f ≢ none)))
unfolding rewrite_fields
rewrite_fields_applied model_json defaults fields d =
    let req = insert (lit "model") model_json fields in
    let names = (apply_defaults (sets_reasoning req) req [] defaults).1 in
    (
      sort_strings-Sorted names,
      λ f.
          subst
            (λ b. Memᴰ f (sort_strings (apply_defaults (sets_reasoning req) req [] defaults).1) ↔ (
              ((lit "model" == f) ≡ false)
              × (lookup f fields ≡ none)
              × (offered b defaults f ≢ none)))
            (sets_reasoning-insert_model model_json fields)
            (applied_iff (sets_reasoning req) model_json defaults fields f d),
    )

module _ (json : Codec) where
  -- Replacing the model is the rewriting with no defaults: where one gives a body, the other
  -- gives the same, with nothing reported as added. But the replacement panics exactly where the
  -- rewriting says that the body is no object and the name of the model can be written.
  pub override_model-rewrite_routed_request :
      (body new_model : Str)
      → ((out : Str)
          → (override_model json body new_model ≡ overridden out)
            ↔ (rewrite_routed_request json body new_model [] ≡ rewritten out []))
        × ((override_model json body new_model ≡ override_panicked) ↔ (
            (rewrite_routed_request json body new_model [] ≡ failed not_an_object)
            × (json.marshal_string new_model ≢ none)))
  unfolding override_model override_object rewrite_routed_request rewrite_object finish_rewrite
      rewrite_fields apply_defaults sort_strings sort_by
  override_model-rewrite_routed_request body new_model = elim (json.unmarshal body) [
    | malformed ↦ ground arith
    | null ↦ elim (json.marshal_string new_model) [ none ↦ ground arith | some m ↦ ground arith ]
    | object fields ↦ elim (json.marshal_string new_model) [
      | none ↦ ground arith
      | some m ↦ elim (json.marshal (insert (lit "model") m fields)) [
        | none ↦ ground arith
        | some b ↦ ground arith
      ]
    ]
  ]
