-- ===== src/Proxy/Spans/Laws.antt =====
-- Span paths as lists of step names: one path for each list, and the paths of its beginnings.
use mathlib.Core.Path.{subst}
use majordomo_gateway.Base.{
  zero, ◌∙◌, ap, sym, ◌↔◌, map, length, ℕ, suc, Bool, true, false, refl, ◌≡◌, arith, List, [], ◌∷◌,
  ◌++◌, if◌then◌else◌, Str, is_empty, take, join, split, eqb, All, split_from, Bool-cases, inl, inr,
  append_nil, ◌↔◌, append_assoc, sym, length-append, All-append,
}
use majordomo_gateway.Proxy.Spans.{
  path_separator, nonempty_segments, split_path, canonical_path, prefixes_from, ancestor_paths,
}

-- No separator in the text.
unfoldable pub separator_free : Str → Bool
separator_free [] = true
separator_free (c ∷ s) = if eqb c path_separator then false else separator_free s

-- A step name: some bytes, and no separator.
abbrev pub IsStep : Str → Type 0
IsStep s = (is_empty s ≡ false) × (separator_free s ≡ true)

separator_free-append :
    (s : Str) (c : ℕ)
    → separator_free s ≡ true
    → eqb c path_separator ≡ false
    → separator_free (s ++ c ∷ []) ≡ true
unfolding separator_free
separator_free-append [] c h k = ground arith
separator_free-append (d ∷ s) c h k = ground (arith, separator_free-append s c)

-- Every part that splitting gives is free of separators.
split_from-All :
    (cur s : Str)
    → separator_free cur ≡ true
    → All (λ x. separator_free x ≡ true) (split_from path_separator cur s)
unfolding split_from separator_free
split_from-All cur [] h = (h, tt)
split_from-All cur (c ∷ s) h = elim (Bool-cases (eqb c path_separator)) [
  | inl e ↦ rw e (h, split_from-All [] s refl)
  | inr e ↦ rw e (split_from-All (cur ++ c ∷ []) s (separator_free-append cur c h e))
]

nonempty_segments-All :
    (raw : List Str) → All (λ x. separator_free x ≡ true) raw → All IsStep (nonempty_segments raw)
unfolding nonempty_segments
nonempty_segments-All [] a = tt
nonempty_segments-All (s ∷ raw) (h, a) = elim (Bool-cases (is_empty s)) [
  | inl e ↦ rw e (nonempty_segments-All raw a)
  | inr e ↦ rw e ((e, h), nonempty_segments-All raw a)
]

-- What a path splits into are step names.
split_path-All : (path : Str) → All IsStep (split_path path)
unfolding split_path split separator_free
split_path-All [] = tt
split_path-All (c ∷ s) = nonempty_segments-All _ (split_from-All [] (c ∷ s) refl)

-- A name is read whole: up to a separator, or up to the end.
split_from-name :
    (cur s t : Str)
    → separator_free s ≡ true
    → split_from path_separator cur (s ++ t) ≡ split_from path_separator (cur ++ s) t
unfolding split_from separator_free
split_from-name cur [] t h = rw (append_nil cur)
split_from-name cur (c ∷ s) t h =
    ground (arith, split_from-name (cur ++ c ∷ []) s t, append_assoc cur (c ∷ []) s)

nonempty_segments-join :
    (s : Str) (steps : List Str)
    → All IsStep (s ∷ steps)
    → nonempty_segments (split_from path_separator [] (join path_separator (s ∷ steps))) ≡ s ∷ steps
unfolding nonempty_segments split_from join
nonempty_segments-join s [] ((e, f), _) =
    subst (λ x. nonempty_segments (split_from path_separator [] x) ≡ s ∷ []) (append_nil s)
      (rw (split_from-name [] s [] f, e))
nonempty_segments-join s (q ∷ steps) ((e, f), a) = rw (
  split_from-name [] s (path_separator ∷ join path_separator (q ∷ steps)) f,
  e,
  nonempty_segments-join q steps a,
)

is_empty-join :
    (s : Str) (steps : List Str)
    → is_empty s ≡ false
    → is_empty (join path_separator (s ∷ steps)) ≡ false
unfolding join
is_empty-join [] steps h = cc
is_empty-join (c ∷ s) [] h = refl
is_empty-join (c ∷ s) (q ∷ steps) h = refl

-- Joining and splitting: step names come back from the path that is made of them.
split_path-join :
    (steps : List Str) → All IsStep steps → split_path (join path_separator steps) ≡ steps
unfolding split_path split join
split_path-join [] a = refl
split_path-join (s ∷ steps) a = rw (is_empty-join s steps a.0.0, nonempty_segments-join s steps a)

-- Two paths have the same canonical form exactly where they have the same steps, and the canonical
-- form of a path has the path's steps and is its own canonical form.
pub canonical_path_iff :
    (p q : Str)
    → ((canonical_path p ≡ canonical_path q) ↔ (split_path p ≡ split_path q))
      × (split_path (canonical_path p) ≡ split_path p)
      × (canonical_path (canonical_path p) ≡ canonical_path p)
unfolding canonical_path
canonical_path_iff p q =
    let e = split_path-join (split_path p) (split_path-All p) in
    let f = split_path-join (split_path q) (split_path-All q) in
    (
      (λ h. sym e ∙ ap split_path h ∙ f, λ h. ap (join path_separator) h),
      e,
      ap (join path_separator) e,
    )

-- The beginnings of a list, the shortest first, without the empty one.
unfoldable pub inits {ℓ} : {A : Type ℓ} → List A → List (List A)
inits [] = []
inits (x ∷ xs) = (x ∷ []) ∷ map (λ l. x ∷ l) (inits xs)

pub take_past :
    (front : List Str) (s : Str) (rest : List Str)
    → take (suc (length front)) (front ++ s ∷ rest) ≡ front ++ s ∷ []
take_past [] s rest = refl
take_past (x ∷ front) s rest = ap (λ l. x ∷ l) (take_past front s rest)

pub map_fuse :
    (front : List Str) (s : Str) (ls : List (List Str))
    → map (λ l. front ++ l) (map (λ l. s ∷ l) ls) ≡ map (λ l. (front ++ s ∷ []) ++ l) ls
map_fuse front s [] = refl
map_fuse front s (l ∷ ls) = rw (append_assoc front (s ∷ []) l, map_fuse front s ls)

pub length_past : (front : List Str) (s : Str) → length (front ++ s ∷ []) ≡ suc (length front)
length_past front s = omega (arith, length-append front (s ∷ []))

split_path-prefixes :
    (front rest : List Str)
    → All IsStep front
    → All IsStep rest
    → map split_path (prefixes_from (front ++ rest) (length front) rest)
      ≡ map (λ l. front ++ l) (inits rest)
unfolding prefixes_from inits
split_path-prefixes front [] a b = refl
split_path-prefixes front (s ∷ rest) a (p, b) =
    let front' = front ++ s ∷ [] in
    let a' = All-append IsStep front (s ∷ []) a (p, tt) in
    let ih = split_path-prefixes front' rest a' b in
    rw (take_past front s rest, split_path-join front' a', map_fuse front s (inits rest))
      (ap (λ l. front' ∷ l)
        (subst
          (λ i.
            map split_path (prefixes_from (front ++ s ∷ rest) i rest)
            ≡ map (λ l. front' ++ l) (inits rest))
          (length_past front s)
          (subst
            (λ x.
              map split_path (prefixes_from x (length front') rest)
              ≡ map (λ l. front' ++ l) (inits rest))
            (append_assoc front (s ∷ []) rest) ih)))

map_id : (ls : List (List Str)) → map (λ l. [] ++ l) ls ≡ ls
map_id [] = refl
map_id (l ∷ ls) = ap (λ r. l ∷ r) (map_id ls)

All-take : (n : ℕ) (steps : List Str) → All IsStep steps → All IsStep (take n steps)
All-take zero steps a = tt
All-take (suc n) [] a = tt
All-take (suc n) (s ∷ steps) (p, a) = (p, All-take n steps a)

prefixes_canonical :
    (segments : List Str) (i : ℕ) (rest : List Str)
    → All IsStep segments
    → All (λ q. canonical_path q ≡ q) (prefixes_from segments i rest)
unfolding prefixes_from canonical_path
prefixes_canonical segments i [] a = tt
prefixes_canonical segments i (s ∷ rest) a = (
  ap (join path_separator) (split_path-join (take (suc i) segments) (All-take (suc i) segments a)),
  prefixes_canonical segments (suc i) rest a,
)

-- The ancestors of a path are the paths of the beginnings of its list of steps, the shortest first:
-- one for each step on the way down, and the path itself last. Each of them is canonical.
pub split_path-ancestor_paths :
    (path : Str)
    → (map split_path (ancestor_paths path) ≡ inits (split_path path))
      × All (λ q. canonical_path q ≡ q) (ancestor_paths path)
unfolding ancestor_paths
split_path-ancestor_paths path = (
  split_path-prefixes [] (split_path path) tt (split_path-All path)
      ∙ map_id (inits (split_path path)),
  prefixes_canonical (split_path path) 0 (split_path path) (split_path-All path),
)
