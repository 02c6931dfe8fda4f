-- ===== src/Proxy/Region/Hosts.antt =====
-- Hosts as texts: what stands in front of a colon, and the ends of a text.
use majordomo_gateway.Base.{
  true, refl, ◌≡◌, arith, [], ◌∷◌, has_suffix, Str, lit, length, take, ◌++◌, ◌≤◌, eq_refl, ◌==◌,
  eq_iff, ◌⊎◌,
}
use majordomo_gateway.Proxy.Region.{
  before_colon, all_region_bytes, bedrock_prefix, bedrock_suffix, is_region_byte,
}

pub before_colon-append :
    (s t : Str) → before_colon s ≡ s → before_colon (s ++ t) ≡ s ++ before_colon t
unfolding before_colon
before_colon-append [] t h = refl
before_colon-append (c ∷ s) t h = ground (arith, before_colon-append s t)

pub before_colon-region : (s : Str) → all_region_bytes s ≡ true → before_colon s ≡ s
unfolding before_colon all_region_bytes is_region_byte
before_colon-region [] h = refl
before_colon-region (c ∷ s) h = ground (arith, before_colon-region s)

pub has_suffix-append : (s t : Str) → has_suffix (s ++ t) t ≡ true
unfolding has_suffix
has_suffix-append [] [] = eq_refl []
has_suffix-append [] (c ∷ t) = ground (arith, eq_refl (c ∷ t))
has_suffix-append (c ∷ s) t = ground (arith, has_suffix-append s t)

pub take-append : (s t : Str) → take (length s) (s ++ t) ≡ s
take-append [] t = refl
take-append (c ∷ s) t = rw (take-append s t)

length-eq : (s t : Str) → (s == t) ≡ true → length t ≤ length s
length-eq s t h = ground (arith, eq_iff s t)

pub length-has_suffix : (s t : Str) → has_suffix s t ≡ true → length t ≤ length s
unfolding has_suffix
length-has_suffix [] t h = length-eq [] t h
length-has_suffix (c ∷ s) t h = ground (arith, length-eq (c ∷ s) t, length-has_suffix s t)

-- The two texts share a dot.
abbrev pub overlapping : Str
overlapping = lit "bedrock-runtime.amazonaws.com"

abbrev pub after_dot : Str
after_dot = lit "amazonaws.com"

pub has_suffix-after_prefix :
    (t : Str)
    → has_suffix (bedrock_prefix ++ t) bedrock_suffix ≡ true
    → (t ≡ after_dot) ⊎ (has_suffix t bedrock_suffix ≡ true)
unfolding has_suffix bedrock_prefix bedrock_suffix lit ◌==◌
has_suffix-after_prefix t h = ground (arith, eq_iff t after_dot)
