-- ===== src/Pricing/Suffix.antt =====
-- stripDateSuffix of internal/pricing/service.go: the regular expression as two shapes that the
-- end of the name may have.
use majordomo_gateway.Base.{
  ℕ, ◌≡◌, refl, ap, ◌⊎◌, inl, inr, Bool, true, false, ◌&&◌, ◌||◌, List, [], ◌∷◌, ◌++◌, arith,
  Option, none, some, leb, eqb, if◌then◌else◌, Bool-cases, Option-cases, ◌↔◌, Str, length,
  length-append,
}

pub data Shape : Type 0 where
  dash digit : Shape

abbrev fits : Shape → ℕ → Bool
fits dash c = eqb c b'-'
fits digit c = leb b'0' c && leb c b'9'

-- The whole text fits the shapes, one to a byte.
fits_all : List Shape → Str → Bool
fits_all [] [] = true
fits_all (p ∷ ps) (c ∷ s) = fits p c && fits_all ps s
fits_all _ _ = false

-- `-\d{4}-\d{2}-\d{2}`
abbrev iso : List Shape
iso = dash ∷ digit ∷ digit ∷ digit ∷ digit ∷ dash ∷ digit ∷ digit ∷ dash ∷ digit ∷ digit ∷ []

-- `-\d{8}`
abbrev compact : List Shape
compact = dash ∷ digit ∷ digit ∷ digit ∷ digit ∷ digit ∷ digit ∷ digit ∷ digit ∷ []

-- The text is a date suffix as a whole.
unfoldable pub is_date : Str → Bool
unfolding fits_all
is_date s = fits_all iso s || fits_all compact s

-- The text before the leftmost place from which all that follows is a date suffix.
cut_date : Str → Option Str
cut_date [] = none
cut_date (c ∷ s) =
    let rest = cut_date s in
    if is_date (c ∷ s) then some [] else elim rest [ none ↦ none | some b ↦ some (c ∷ b) ]

unfoldable pub strip_date_suffix : Str → Str × Bool
unfolding cut_date is_date
strip_date_suffix model = elim (cut_date model) [ none ↦ (model, false) | some b ↦ (b, true) ]

length_of_fits_all : (ps : List Shape) (s : Str) → fits_all ps s ≡ true → length s ≡ length ps
unfolding fits_all
length_of_fits_all [] [] h = refl
length_of_fits_all (p ∷ ps) (c ∷ s) h = ground (arith, length_of_fits_all ps s)
length_of_fits_all [] (c ∷ s) h = cc
length_of_fits_all (p ∷ ps) [] h = cc

-- A date suffix has 9 or 11 bytes, the first a dash; with 11, the third is a digit.
date_shape :
    (s : Str)
    → is_date s ≡ true
    → ((fits_all iso s ≡ true) × (length s ≡ 11)) ⊎ ((fits_all compact s ≡ true) × (length s ≡ 9))
unfolding is_date
date_shape s h = ground (arith, length_of_fits_all iso s, length_of_fits_all compact s)

-- Two bytes before a compact date do not make an ISO date.
no_overlap : (a b : ℕ) (d : Str) → fits_all iso (a ∷ b ∷ d) ≡ true → fits_all compact d ≡ true → ⊥
unfolding fits_all
no_overlap a b [] h k = cc
no_overlap a b (c ∷ d) h k = ground arith

no_longer_date : (a : ℕ) (p d : Str) → is_date d ≡ true → is_date ((a ∷ p) ++ d) ≡ true → ⊥
no_longer_date a [] d h e = ground (arith, date_shape d h, date_shape (a ∷ d) e)
no_longer_date a (b ∷ []) d h e =
    ground (arith, date_shape d h, date_shape (a ∷ b ∷ d) e, no_overlap a b d)
no_longer_date a (b ∷ c ∷ p) d h e =
    ground (arith, date_shape d h, date_shape (a ∷ b ∷ c ∷ p ++ d) e, length-append p d)

cut_date-append : (b d : Str) → is_date d ≡ true → cut_date (b ++ d) ≡ some b
unfolding cut_date
cut_date-append [] [] h = ground (arith, date_shape [] h)
cut_date-append [] (c ∷ d) h = rw h
cut_date-append (a ∷ b) d h = elim (Bool-cases (is_date ((a ∷ b) ++ d))) [
  | inl e ↦ absurd (no_longer_date a b d h e)
  | inr e ↦ rw (e, cut_date-append b d h)
]

cut_date_sound :
    (s : Str) {b : Str} → cut_date s ≡ some b → (d : Str) × (s ≡ b ++ d) × (is_date d ≡ true)
unfolding cut_date
cut_date_sound [] h = cc
cut_date_sound (c ∷ s) {b} h = elim (Bool-cases (is_date (c ∷ s))) [
  | inl e ↦ let at_once : b ≡ [] = ground arith in rw at_once (c ∷ s, refl, e)
  | inr e ↦ elim (Option-cases (cut_date s)) [
    | inl k ↦ absurd (ground arith)
    | inr (b', k) ↦
        let (d, split, date) = cut_date_sound s k in
        let longer : b ≡ c ∷ b' = ground arith in rw longer (d, ap (◌∷◌ c) split, date)
  ]
]

-- A dated name loses exactly its date: the suffix cut off is never longer than the date that was
-- put there, and nothing else of the base name is touched.
pub strip_date_suffix-append :
    (base date : Str) → is_date date ≡ true → strip_date_suffix (base ++ date) ≡ (base, true)
unfolding strip_date_suffix
strip_date_suffix-append base date h = rw (cut_date-append base date h, strip_date_suffix)

-- A suffix is reported as removed exactly when the name is the result followed by a date.
strip_date_suffix_iff :
    (model base : Str)
    → (strip_date_suffix model ≡ (base, true))
      ↔ ((date : Str) × (model ≡ base ++ date) × (is_date date ≡ true))
unfolding strip_date_suffix
strip_date_suffix_iff model base = (
  λ h. cut_date_sound model (ground arith),
  λ (date, e, d). rw e (strip_date_suffix-append base date d),
)
