-- ===== src/Proxy/Forward/Laws.antt =====
-- Exactly which headers are forwarded, with which values.
use majordomo_gateway.Base.{
  ◌||◌, lit, has_prefix, to_lower, Bool, refl, ◌≡◌, Option, none, some, List, [], ◌∷◌, ◌++◌, arith,
  if◌then◌else◌, Str, ◌==◌, eq_iff, Dict, lookup, lookup-insert, Distinct, append_assoc, ap,
  Option-cases, inl, inr,
}
use majordomo_gateway.Proxy.Forward.{
  is_hop_by_hop, skips_request_header, skips_response_header, add_header, add_values, copy_unless,
  copy_headers, copy_response_headers,
}

-- Values behind those that are there; no values leave the name out.
abbrev pub joined : Option (List Str) → List Str → Option (List Str)
joined o [] = o
joined none (v ∷ values) = some (v ∷ values)
joined (some old) (v ∷ values) = some (old ++ v ∷ values)

-- What a name has in a header map, where no values are as no name.
abbrev pub values_of : Str → Dict (List Str) → Option (List Str)
values_of k d = elim (lookup k d) [ none ↦ none | some values ↦ joined none values ]

joined_twice :
    (o : Option (List Str)) (v : Str) (values : List Str)
    → joined (joined o (v ∷ [])) values ≡ joined o (v ∷ values)
joined_twice none v [] = refl
joined_twice none v (w ∷ values) = refl
joined_twice (some old) v [] = refl
joined_twice (some old) v (w ∷ values) = ap some (append_assoc old (v ∷ []) (w ∷ values))

lookup-add_header :
    (key v : Str) (dst : Dict (List Str)) (k : Str)
    → lookup k (add_header key v dst)
      ≡ (if key == k then joined (lookup k dst) (v ∷ []) else lookup k dst)
unfolding add_header
lookup-add_header key v dst k = elim (Option-cases (lookup key dst)) [
  | inl e ↦ ground (arith, eq_iff key k, lookup-insert key k (v ∷ []) dst)
  | inr (old, e) ↦ ground (arith, eq_iff key k, lookup-insert key k (old ++ v ∷ []) dst)
]

lookup-add_values :
    (key : Str) (values : List Str) (dst : Dict (List Str)) (k : Str)
    → lookup k (add_values key values dst)
      ≡ (if key == k then joined (lookup k dst) values else lookup k dst)
unfolding add_values
lookup-add_values key [] dst k = ground arith
lookup-add_values key (v ∷ values) dst k = ground (
  arith,
  lookup-add_values key values (add_header key v dst) k,
  lookup-add_header key v dst k,
  joined_twice (lookup k dst) v values,
)

lookup-copy_unless :
    (skips : Str → Bool) (src dst : Dict (List Str)) (k : Str)
    → Distinct src
    → lookup k (copy_unless skips src dst) ≡ (
        if skips k then lookup k dst else elim (lookup k src) [
          | none ↦ lookup k dst
          | some values ↦ joined (lookup k dst) values
        ])
unfolding copy_unless lookup
lookup-copy_unless skips [] dst k d = ground arith
lookup-copy_unless skips ((key, values) ∷ src) dst k (fresh, d) = ground (
  arith,
  lookup-copy_unless skips src (if skips key then dst else add_values key values dst) k d,
  lookup-add_values key values dst k,
  eq_iff key k,
)

-- An upstream request has, under each name, exactly the client's values in their order, and none under
-- a name that begins with x-majordomo or is specific to the connection: the gateway's key is never
-- sent to a provider. What comes back is copied likewise, but for the names specific to the connection
-- and the content encoding. No two headers of a map have the same name.
pub lookup-copy_headers :
    (src : Dict (List Str)) (k : Str)
    → Distinct src
    → (lookup k (copy_headers src []) ≡ (
        if has_prefix (to_lower k) (lit "x-majordomo") || is_hop_by_hop (to_lower k)
        then none
        else values_of k src))
      × (lookup k (copy_response_headers src []) ≡ (
          if is_hop_by_hop (to_lower k) || to_lower k == lit "content-encoding"
          then none
          else values_of k src))
unfolding copy_headers copy_response_headers lookup skips_request_header skips_response_header
lookup-copy_headers src k d = (
  lookup-copy_unless skips_request_header src [] k d,
  lookup-copy_unless skips_response_header src [] k d,
)
