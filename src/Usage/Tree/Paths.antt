-- ===== src/Usage/Tree/Paths.antt =====
-- The prefixes of a path that ensurePath visits: no more than the cap, and the last of them.
use mathlib.Core.Path.{subst}
use majordomo_gateway.Base.{
  ℕ, zero, suc, ◌≤◌, ◌≡◌, refl, sym, ap, ◌∙◌, false, List, [], ◌∷◌, ◌++◌, arith, All, Str, length,
  take, map, join, append_assoc, is_empty,
}
use majordomo_gateway.Proxy.Spans.{
  path_separator, split_path, canonical_path, prefixes_from, ancestor_paths,
}
use majordomo_gateway.Proxy.Spans.Laws.{
  take_past, length_past, map_fuse, inits, split_path-ancestor_paths, canonical_path_iff,
}

-- The last of some paths, or else another path.
abbrev pub last_or : Str → List Str → Str
last_or d [] = d
last_or d (q ∷ qs) = last_or q qs

-- What is known of a path to which a node belongs.
abbrev pub IsNodePath : Str → Type 0
IsNodePath q =
    (is_empty (split_path q) ≡ false) × (length (split_path q) ≤ 64) × (canonical_path q ≡ q)

take-map : {A B : Type 0} (f : A → B) (n : ℕ) (xs : List A) → take n (map f xs) ≡ map f (take n xs)
take-map f zero xs = refl
take-map f (suc n) [] = refl
take-map f (suc n) (x ∷ xs) = ap (λ l. f x ∷ l) (take-map f n xs)

map_same : (ls : List (List Str)) → map (λ l. [] ++ l) ls ≡ ls
map_same [] = refl
map_same (l ∷ ls) = ap (λ r. l ∷ r) (map_same ls)

pub take_all {ℓ} : {A : Type ℓ} (n : ℕ) (xs : List A) → length xs ≤ n → take n xs ≡ xs
take_all zero [] h = refl
take_all zero (x ∷ xs) h = absurd (omega arith)
take_all (suc n) [] h = refl
take_all (suc n) (x ∷ xs) h = ap (λ l. x ∷ l) (take_all n xs (omega arith))

All-map :
    (P : List Str → Type 0) (f : Str → List Str) (xs : List Str)
    → All P (map f xs)
    → All (λ x. P (f x)) xs
All-map P f [] a = tt
All-map P f (x ∷ xs) (p, a) = (p, All-map P f xs a)

All-take : (P : Str → Type 0) (n : ℕ) (xs : List Str) → All P xs → All P (take n xs)
All-take P zero xs a = tt
All-take P (suc n) [] a = tt
All-take P (suc n) (x ∷ xs) (p, a) = (p, All-take P n xs a)

All-both :
    (P Q S : Str → Type 0) (xs : List Str)
    → ((x : Str) → P x → Q x → S x)
    → All P xs
    → All Q xs
    → All S xs
All-both P Q S [] f a b = tt
All-both P Q S (x ∷ xs) f (p, a) (q, b) = (f x p q, All-both P Q S xs f a b)

longer :
    (x : Str) (n : ℕ) (ls : List (List Str))
    → All (λ l. (is_empty l ≡ false) × (length l ≤ n)) ls
    → All (λ l. (is_empty l ≡ false) × (length l ≤ suc n)) (map (λ l. x ∷ l) ls)
longer x n [] a = tt
longer x n (l ∷ ls) ((p, q), a) = ((refl, omega arith), longer x n ls a)

take-inits :
    (n : ℕ) (xs : List Str) → All (λ l. (is_empty l ≡ false) × (length l ≤ n)) (take n (inits xs))
unfolding inits
take-inits zero xs = tt
take-inits (suc n) [] = tt
take-inits (suc n) (x ∷ xs) = (
  (refl, omega arith),
  rw (take-map (λ l. x ∷ l) n (inits xs)) (longer x n (take n (inits xs)) (take-inits n xs)),
)

-- The prefixes that are visited are node paths.
pub prefixes-All : (path : Str) → All IsNodePath (take 64 (ancestor_paths path))
prefixes-All path =
    let (splits, canonical) = split_path-ancestor_paths path in
    let kept =
      All-map (λ l. (is_empty l ≡ false) × (length l ≤ 64)) split_path
        (take 64 (ancestor_paths path))
        (subst (All (λ l. (is_empty l ≡ false) × (length l ≤ 64)))
          (sym (ap (take 64) splits) ∙ take-map split_path 64 (ancestor_paths path))
          (take-inits 64 (split_path path))) in
    All-both (λ q. (is_empty (split_path q) ≡ false) × (length (split_path q) ≤ 64))
      (λ q. canonical_path q ≡ q) IsNodePath (take 64 (ancestor_paths path))
      (λ q a b. (a.0, a.1, b)) kept
      (All-take (λ q. canonical_path q ≡ q) 64 (ancestor_paths path) canonical)

last_prefix :
    (k : ℕ) (front : List Str) (s : Str) (rest : List Str) (d : Str)
    → last_or d (take (suc k) (prefixes_from (front ++ s ∷ rest) (length front) (s ∷ rest)))
      ≡ join path_separator (front ++ take (suc k) (s ∷ rest))
unfolding prefixes_from
last_prefix zero front s rest d = ap (join path_separator) (take_past front s rest)
last_prefix (suc k) front s [] d = ap (join path_separator) (take_past front s [])
last_prefix (suc k) front s (t ∷ rest) d =
    let q = join path_separator (take (suc (length front)) (front ++ s ∷ t ∷ rest)) in
    let ih = last_prefix k (front ++ s ∷ []) t rest q in
    subst
      (λ l.
        last_or q
          (take (suc k) (prefixes_from (front ++ s ∷ t ∷ rest) (suc (length front)) (t ∷ rest)))
        ≡ join path_separator l)
      (append_assoc front (s ∷ []) (take (suc k) (t ∷ rest)))
      (subst
        (λ l.
          last_or q (take (suc k) (prefixes_from l (suc (length front)) (t ∷ rest)))
          ≡ join path_separator ((front ++ s ∷ []) ++ take (suc k) (t ∷ rest)))
        (append_assoc front (s ∷ []) (t ∷ rest))
        (subst
          (λ i.
            last_or q (take (suc k) (prefixes_from ((front ++ s ∷ []) ++ t ∷ rest) i (t ∷ rest)))
            ≡ join path_separator ((front ++ s ∷ []) ++ take (suc k) (t ∷ rest)))
          (length_past front s) ih))

-- Each list is the one before it, or at first another, and one step.
abbrev pub IsGrowing : List Str → List (List Str) → Type 0
IsGrowing l [] = Unit
IsGrowing l (m ∷ ms) = (s : Str) × (m ≡ l ++ s ∷ []) × IsGrowing m ms

inits-IsGrowing : (front rest : List Str) → IsGrowing front (map (λ l. front ++ l) (inits rest))
unfolding inits
inits-IsGrowing front [] = tt
inits-IsGrowing front (s ∷ rest) = (
  s,
  refl,
  subst (IsGrowing (front ++ s ∷ [])) (sym (map_fuse front s (inits rest)))
      (inits-IsGrowing (front ++ s ∷ []) rest),
)

IsGrowing-take :
    (n : ℕ) (l : List Str) (ms : List (List Str)) → IsGrowing l ms → IsGrowing l (take n ms)
IsGrowing-take zero l ms g = tt
IsGrowing-take (suc n) l [] g = tt
IsGrowing-take (suc n) l (m ∷ ms) (s, e, g) = (s, e, IsGrowing-take n m ms g)

-- Each prefix that is visited goes on from the one before it by a step.
pub prefixes-IsGrowing :
    (path : Str) → IsGrowing [] (map split_path (take 64 (ancestor_paths path)))
prefixes-IsGrowing path =
    subst (IsGrowing [])
      (ap (take 64) (map_same (inits (split_path path)) ∙ sym (split_path-ancestor_paths path).0)
        ∙ take-map split_path 64 (ancestor_paths path))
      (IsGrowing-take 64 [] (map (λ l. [] ++ l) (inits (split_path path)))
        (inits-IsGrowing [] (split_path path)))

-- A path with its steps cut off behind the 64th.
unfoldable pub capped_path : Str → Str
capped_path path = join path_separator (take 64 (split_path path))

prefixes_last :
    (segments : List Str)
    → last_or [] (take 64 (prefixes_from segments 0 segments))
      ≡ join path_separator (take 64 segments)
unfolding join prefixes_from
prefixes_last [] = refl
prefixes_last (s ∷ rest) = last_prefix 63 [] s rest []

-- The last prefix that is visited.
pub last_prefix-capped_path :
    (path : Str) → last_or [] (take 64 (ancestor_paths (canonical_path path))) ≡ capped_path path
unfolding ancestor_paths capped_path
last_prefix-capped_path path =
    prefixes_last (split_path (canonical_path path))
    ∙ ap (λ l. join path_separator (take 64 l)) (canonical_path_iff path path).1

-- A path that is short enough is not cut.
pub capped_path_short :
    (path : Str)
    → length (split_path (canonical_path path)) ≤ 64
    → capped_path path ≡ canonical_path path
unfolding capped_path canonical_path
capped_path_short path h =
    ap (join path_separator) (
      take_all 64 (split_path path) (subst (λ l. length l ≤ 64) (canonical_path_iff path path).1 h))
