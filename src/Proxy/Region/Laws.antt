-- ===== src/Proxy/Region/Laws.antt =====
-- Which regions a Bedrock request can get, which hosts have one, and which host panics.
use mathlib.Core.Path.{subst}
use majordomo_gateway.Base.{
  Bool, true, false, refl, ◌≡◌, ◌↔◌, arith, ◌-◌, ap, if◌then◌else◌, ltb, if◌then◌else◌, ltb, ◌&&◌,
  ◌∷◌, has_suffix, Str, has_prefix, lit, drop, length, take, ◌++◌, ◌==◌, ap, is_empty,
  length-append, inl, ◌∙◌, inr, append_nil, has_prefix-append, has_prefix-drop, drop-append,
}
use majordomo_gateway.Proxy.Region.Hosts.{
  before_colon-append, before_colon-region, has_suffix-append, take-append, length-has_suffix,
  overlapping, has_suffix-after_prefix,
}
use majordomo_gateway.Proxy.Region.{
  region, region_panics, before_colon, all_region_bytes, bedrock_prefix, bedrock_suffix,
  parse_bedrock_region_from_host, resolve_bedrock_region, is_valid_aws_region, slice_region, Region,
  region_if_valid, no_region,
}

region_of : Str → Region → Str
region_of d (region r) = r
region_of d _ = d

region_injective : (r s : Str) → region r ≡ region s → r ≡ s
unfolding region_of
region_injective r s h = ap (region_of r) h

region_if_valid-is_valid : (s r : Str) → region_if_valid s ≡ region r → is_valid_aws_region r ≡ true
unfolding region_if_valid
region_if_valid-is_valid s r h = ground (arith, region_injective s r)

slice_region-is_valid : (s r : Str) → slice_region s ≡ region r → is_valid_aws_region r ≡ true
unfolding slice_region
slice_region-is_valid s r h = ground (
  arith,
  region_if_valid-is_valid
      (drop (length bedrock_prefix) (take (length s - length bedrock_suffix) s)) r,
)

under_test :
    (b : Bool) (x : Region) (r : Str) → (if b then x else no_region) ≡ region r → x ≡ region r
under_test true x r h = h
under_test false x r h = cc

parsed-is_valid :
    (host r : Str) → parse_bedrock_region_from_host host ≡ region r → is_valid_aws_region r ≡ true
unfolding parse_bedrock_region_from_host
parsed-is_valid host r h =
    slice_region-is_valid (before_colon host) r
      (under_test _ (slice_region (before_colon host)) r h)

-- Whatever the header and the host say, a region that a request gets is a nonempty text of lower-case
-- letters, digits and hyphens: no other byte goes into the name of the upstream host.
pub resolve_bedrock_region-is_valid :
    (header host r : Str)
    → resolve_bedrock_region header host ≡ region r
    → (is_empty r ≡ false) × (all_region_bytes r ≡ true)
unfolding resolve_bedrock_region is_valid_aws_region
resolve_bedrock_region-is_valid header host r h =
    ground (arith, parsed-is_valid host r, region_if_valid-is_valid header r)

abbrev pub region_host : Str → Str
region_host r = bedrock_prefix ++ (r ++ bedrock_suffix)

length_front :
    (r : Str) → length (region_host r) - length bedrock_suffix ≡ length (bedrock_prefix ++ r)
length_front r = omega (
  arith,
  length-append bedrock_prefix (r ++ bedrock_suffix),
  length-append r bedrock_suffix,
  length-append bedrock_prefix r,
)

take_front : (r : Str) → take (length (bedrock_prefix ++ r)) (region_host r) ≡ bedrock_prefix ++ r
unfolding bedrock_prefix lit
take_front r = take-append (bedrock_prefix ++ r) bedrock_suffix

middle :
    (r : Str)
    → drop (length bedrock_prefix) (take (length (bedrock_prefix ++ r)) (region_host r)) ≡ r
middle r = ap (drop (length bedrock_prefix)) (take_front r) ∙ drop-append bedrock_prefix r

not_crossed : (r : Str) → ltb (length (bedrock_prefix ++ r)) (length bedrock_prefix) ≡ false
not_crossed r = ground (arith, length-append bedrock_prefix r)

region_if_valid-valid : (r : Str) → is_valid_aws_region r ≡ true → region_if_valid r ≡ region r
unfolding region_if_valid
region_if_valid-valid r v = ground arith

sliced : (r : Str) → is_valid_aws_region r ≡ true → slice_region (region_host r) ≡ region r
unfolding slice_region
sliced r v = rw (length_front r, not_crossed r, middle r) (region_if_valid-valid r v)

ends : (r : Str) → has_suffix (region_host r) bedrock_suffix ≡ true
unfolding bedrock_prefix lit
ends r = has_suffix-append (bedrock_prefix ++ r) bedrock_suffix

parsed :
    (host r : Str)
    → before_colon host ≡ region_host r
    → is_valid_aws_region r ≡ true
    → parse_bedrock_region_from_host host ≡ region r
unfolding parse_bedrock_region_from_host
parsed host r e v =
    rw (e, has_prefix-append bedrock_prefix (r ++ bedrock_suffix), ends r, sliced r v)

fixed_parts :
    (before_colon bedrock_prefix ≡ bedrock_prefix) × (before_colon bedrock_suffix ≡ bedrock_suffix)
unfolding before_colon bedrock_prefix bedrock_suffix lit
fixed_parts = (refl, refl)

region_bytes : (r : Str) → is_valid_aws_region r ≡ true → before_colon r ≡ r
unfolding is_valid_aws_region
region_bytes r v = ground (arith, before_colon-region r)

clean_host : (r : Str) → is_valid_aws_region r ≡ true → before_colon (region_host r) ≡ region_host r
clean_host r v = rw (
  before_colon-append bedrock_prefix (r ++ bedrock_suffix) fixed_parts.0,
  before_colon-append r bedrock_suffix (region_bytes r v),
  fixed_parts.1,
)

with_port : (s port : Str) → before_colon s ≡ s → before_colon (s ++ b':' ∷ port) ≡ s
unfolding before_colon
with_port s port h = rw (before_colon-append s (b':' ∷ port) h, append_nil s)

-- The round trip: a valid region put between the two fixed parts is read back, with a port or without.
parse_bedrock_region_from_host-region :
    (r port : Str)
    → is_valid_aws_region r ≡ true
    → (parse_bedrock_region_from_host (region_host r) ≡ region r)
      × (parse_bedrock_region_from_host (region_host r ++ b':' ∷ port) ≡ region r)
parse_bedrock_region_from_host-region r port v = (
  parsed (region_host r) r (clean_host r v) v,
  parsed (region_host r ++ b':' ∷ port) r (with_port (region_host r) port (clean_host r v)) v,
)

crossed :
    (h : Str)
    → has_prefix h bedrock_prefix ≡ true
    → has_suffix h bedrock_suffix ≡ true
    → ltb (length h - length bedrock_suffix) (length bedrock_prefix) ≡ true
    → h ≡ overlapping
unfolding bedrock_prefix bedrock_suffix lit
crossed h p q l =
    let t = drop (length bedrock_prefix) h in
    let e = has_prefix-drop h bedrock_prefix p in
    elim (has_suffix-after_prefix t (subst (λ x. has_suffix x bedrock_suffix ≡ true) e q)) [
      | inl d ↦ e ∙ ap (λ x. bedrock_prefix ++ x) d
      | inr k ↦ absurd (
          ground (
            arith,
            length-has_suffix t bedrock_suffix k,
            length-append bedrock_prefix t,
            ap length e,
            l,
          ))
    ]

region_if_valid-panics : (s : Str) → region_if_valid s ≡ region_panics → ⊥
unfolding region_if_valid
region_if_valid-panics s h = ground arith

slice_region-panics :
    (s : Str)
    → slice_region s ≡ region_panics
    → ltb (length s - length bedrock_suffix) (length bedrock_prefix) ≡ true
unfolding slice_region
slice_region-panics s h = ground (
  arith,
  region_if_valid-panics (drop (length bedrock_prefix) (take (length s - length bedrock_suffix) s)),
)

under_panic :
    (p q : Bool) (x : Region)
    → (if p && q then x else no_region) ≡ region_panics
    → (p ≡ true) × (q ≡ true) × (x ≡ region_panics)
under_panic true true x h = (refl, refl, h)
under_panic true false x h = cc
under_panic false q x h = cc

parse-panics :
    (host : Str)
    → parse_bedrock_region_from_host host ≡ region_panics
    → before_colon host ≡ overlapping
unfolding parse_bedrock_region_from_host
parse-panics host e =
    let h = before_colon host in
    let (p, q, x) =
      under_panic (has_prefix h bedrock_prefix) (has_suffix h bedrock_suffix) (slice_region h) e in
    crossed h p q (slice_region-panics h x)

panics-parse :
    (host : Str)
    → before_colon host ≡ overlapping
    → parse_bedrock_region_from_host host ≡ region_panics
unfolding parse_bedrock_region_from_host slice_region has_prefix has_suffix bedrock_prefix
    bedrock_suffix lit ◌==◌
panics-parse host e = rw e

-- Reading the region panics, with a slice whose bounds cross, exactly for the host that is the
-- two fixed parts on one dot, with a port behind it or nothing.
pub parse_bedrock_region_from_host_panics_iff :
    (host : Str)
    → (parse_bedrock_region_from_host host ≡ region_panics) ↔ (before_colon host ≡ overlapping)
parse_bedrock_region_from_host_panics_iff host = (parse-panics host, panics-parse host)
