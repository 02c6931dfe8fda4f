-- ===== src/Base/Text.antt =====
-- Go strings as lists of bytes, with the functions of package strings that the gateway calls.
-- Case folding is that of ASCII, which is what header names and provider names are written in.
use Prim.Native.Char.{code}
use Prim.Native.Nat.{ℕ, ◌+◌}
use Prim.Native.String.{String}
use mathlib.Core.Path.{◌≡◌, refl}
use mathlib.Core.Logic.{◌↔◌}
use mathlib.Core.Bool.{Bool, true, false, ◌&&◌, ◌||◌}
use mathlib.Core.List.{List, [], ◌∷◌, ◌++◌}
use native.Mathlib.Omega.{arith}
use majordomo_gateway.Base.Tests.{eqb, leb, if◌then◌else◌}
use majordomo_gateway.Base.Lists.{length, drop}

abbrev pub Str : Type 0
Str = List ℕ

codes : String → Str
codes String.[] = []
codes (String.◌∷◌ c s) = code c ∷ codes s

-- A literal of the source. Shut, so that long names stay short in goals.
unfoldable pub lit : String → Str
unfolding codes
lit s = codes s

infix 50 ◌==◌
unfoldable pub ◌==◌ : Str → Str → Bool
[] == [] = true
(x ∷ s) == (y ∷ t) = eqb x y && (s == t)
_ == _ = false

eq_to : (s t : Str) → (s == t) ≡ true → s ≡ t
unfolding ◌==◌
eq_to [] [] h = refl
eq_to (x ∷ s) (y ∷ t) h = ground (arith, eq_to s t)
eq_to [] (y ∷ t) h = cc
eq_to (x ∷ s) [] h = cc

pub eq_refl : (s : Str) → (s == s) ≡ true
unfolding ◌==◌
eq_refl [] = refl
eq_refl (x ∷ s) = ground (arith, eq_refl s)

pub eq_iff : (s t : Str) → ((s == t) ≡ true) ↔ (s ≡ t)
eq_iff s t = (eq_to s t, λ e. rw e (eq_refl t))

-- strings.HasPrefix(s, prefix)
unfoldable pub has_prefix : Str → Str → Bool
has_prefix s [] = true
has_prefix [] (p ∷ ps) = false
has_prefix (c ∷ s) (p ∷ ps) = eqb c p && has_prefix s ps

-- strings.TrimPrefix(s, prefix)
unfoldable pub trim_prefix : Str → Str → Str
unfolding has_prefix
trim_prefix s p = if has_prefix s p then drop (length p) s else s

-- strings.HasSuffix(s, suffix)
unfoldable pub has_suffix : Str → Str → Bool
unfolding ◌==◌
has_suffix [] suffix = [] == suffix
has_suffix (c ∷ s) suffix = ((c ∷ s) == suffix) || has_suffix s suffix

-- strings.Contains(s, sub)
unfoldable pub contains : Str → Str → Bool
unfolding has_prefix
contains [] sub = has_prefix [] sub
contains (c ∷ s) sub = has_prefix (c ∷ s) sub || contains s sub

abbrev pub lower_byte : ℕ → ℕ
lower_byte c = if leb b'A' c && leb c b'Z' then c + 32 else c

-- strings.ToLower(s)
unfoldable pub to_lower : Str → Str
to_lower [] = []
to_lower (c ∷ s) = lower_byte c ∷ to_lower s

-- strings.EqualFold(s, t)
unfoldable pub equal_fold : Str → Str → Bool
unfolding to_lower ◌==◌
equal_fold s t = to_lower s == to_lower t

-- strings.Join(parts, sep), for a separator of one byte
unfoldable pub join : ℕ → List Str → Str
join sep [] = []
join sep (p ∷ []) = p
join sep (p ∷ q ∷ ps) = p ++ sep ∷ join sep (q ∷ ps)

-- strings.Split(s, sep), for a separator of one byte; `cur` is the part that is being read
unfoldable pub split_from : ℕ → Str → Str → List Str
split_from sep cur [] = cur ∷ []
split_from sep cur (c ∷ s) =
    let closed = split_from sep [] s in
    let longer = split_from sep (cur ++ c ∷ []) s in if eqb c sep then cur ∷ closed else longer

unfoldable pub split : ℕ → Str → List Str
unfolding split_from
split sep s = split_from sep [] s

-- The order of Go strings: s < t.
unfoldable pub str_lt : Str → Str → Bool
str_lt s [] = false
str_lt [] (d ∷ t) = true
str_lt (c ∷ s) (d ∷ t) = if eqb c d then str_lt s t else leb c d

pub str_lt_asymm : (s t : Str) → str_lt s t ≡ true → str_lt t s ≡ false
unfolding str_lt
str_lt_asymm [] [] h = cc
str_lt_asymm [] (d ∷ t) h = refl
str_lt_asymm (c ∷ s) [] h = cc
str_lt_asymm (c ∷ s) (d ∷ t) h = ground (arith, str_lt_asymm s t)

-- `≥` is transitive.
pub str_lt_trans_not : (s t u : Str) → str_lt s t ≡ false → str_lt t u ≡ false → str_lt s u ≡ false
unfolding str_lt
str_lt_trans_not s t [] h k = refl
str_lt_trans_not [] [] (e ∷ u) h k = cc
str_lt_trans_not [] (d ∷ t) (e ∷ u) h k = cc
str_lt_trans_not (c ∷ s) [] (e ∷ u) h k = cc
str_lt_trans_not (c ∷ s) (d ∷ t) (e ∷ u) h k = ground (arith, str_lt_trans_not s t u)

pub str_lt_irrefl : (s : Str) → str_lt s s ≡ false
unfolding str_lt
str_lt_irrefl [] = refl
str_lt_irrefl (c ∷ s) = ground (arith, str_lt_irrefl s)

pub has_prefix_self : (s : Str) → has_prefix s s ≡ true
unfolding has_prefix
has_prefix_self [] = refl
has_prefix_self (c ∷ s) = ground (arith, has_prefix_self s)

pub has_prefix_of_append : (s p q : Str) → has_prefix s (p ++ q) ≡ true → has_prefix s p ≡ true
unfolding has_prefix
has_prefix_of_append s [] q h = refl
has_prefix_of_append [] (c ∷ p) q h = cc
has_prefix_of_append (d ∷ s) (c ∷ p) q h = ground (arith, has_prefix_of_append s p q)

pub has_prefix-append : (p s : Str) → has_prefix (p ++ s) p ≡ true
unfolding has_prefix
has_prefix-append [] s = refl
has_prefix-append (c ∷ p) s = ground (arith, has_prefix-append p s)

pub drop-append : (p s : Str) → drop (length p) (p ++ s) ≡ s
drop-append [] s = refl
drop-append (c ∷ p) s = drop-append p s

pub has_prefix-drop : (s p : Str) → has_prefix s p ≡ true → s ≡ p ++ drop (length p) s
unfolding has_prefix
has_prefix-drop s [] h = refl
has_prefix-drop [] (c ∷ p) h = cc
has_prefix-drop (d ∷ s) (c ∷ p) h = ground (arith, has_prefix-drop s p)
