-- ===== src/Base/Lists.antt =====
-- Lists measured by native numbers, and membership and All as predicates by recursion.
use Prim.Native.Nat.{ℕ, zero, suc, ◌+◌, ◌≤◌}
use mathlib.Core.Path.{◌≡◌, refl, sym, subst}
use mathlib.Core.Logic.{◌↔◌, ◌⊎◌, inl, inr}
use mathlib.Core.Bool.{Bool, true, false}
use mathlib.Core.List.{List, [], ◌∷◌, ◌++◌, Memᴰ}
use mathlib.Core.List.Memᴰ.{head, tail}
use native.Mathlib.Omega.{arith}
use majordomo_gateway.Base.Tests.{if◌then◌else◌, Bool-cases}

bool_clash : {b : Bool} → b ≡ true → b ≡ false → ⊥
bool_clash h k = cc

module _ {ℓ} {A : Type ℓ} where
  abbrev pub length : List A → ℕ
  length [] = 0
  length (x ∷ xs) = suc (length xs)

  pub length-append : (xs ys : List A) → length (xs ++ ys) ≡ length xs + length ys
  length-append [] ys = omega arith
  length-append (x ∷ xs) ys = omega (arith, length-append xs ys)

  pub append_nil : (xs : List A) → xs ++ [] ≡ xs
  append_nil [] = refl
  append_nil (x ∷ xs) = rw (append_nil xs)

  pub append_assoc : (xs ys zs : List A) → (xs ++ ys) ++ zs ≡ xs ++ (ys ++ zs)
  append_assoc [] ys zs = refl
  append_assoc (x ∷ xs) ys zs = rw (append_assoc xs ys zs)

  abbrev pub take : ℕ → List A → List A
  take zero xs = []
  take (suc n) [] = []
  take (suc n) (x ∷ xs) = x ∷ take n xs

  abbrev pub drop : ℕ → List A → List A
  drop zero xs = xs
  drop (suc n) [] = []
  drop (suc n) (x ∷ xs) = drop n xs

  pub length-take-le : (n : ℕ) (xs : List A) → length (take n xs) ≤ n
  length-take-le zero xs = omega arith
  length-take-le (suc n) [] = omega arith
  length-take-le (suc n) (x ∷ xs) = omega (arith, length-take-le n xs)

  -- len(xs) == 0
  abbrev pub is_empty : List A → Bool
  is_empty [] = true
  is_empty (x ∷ xs) = false

  pub is_empty-Memᴰ : (xs : List A) {a : A} → is_empty xs ≡ true → Memᴰ a xs → ⊥
  is_empty-Memᴰ [] h m = elim m [ ]
  is_empty-Memᴰ (x ∷ xs) h m = cc

  pub Memᴰ-is_empty : {a : A} {xs : List A} → Memᴰ a xs → is_empty xs ≡ false
  Memᴰ-is_empty (head same) = refl
  Memᴰ-is_empty (tail m) = refl

  pub some_Memᴰ : (xs : List A) → is_empty xs ≡ false → (a : A) × Memᴰ a xs
  some_Memᴰ [] h = cc
  some_Memᴰ (x ∷ xs) h = (x, head refl)

  -- The loop that appends what passes the test to a fresh slice.
  unfoldable pub filter : (A → Bool) → List A → List A
  filter p [] = []
  filter p (x ∷ xs) = let rest = filter p xs in if p x then x ∷ rest else rest

  -- What is left was there, and passes the test.
  pub filter-Memᴰ :
      (p : A → Bool) {a : A} (xs : List A) → Memᴰ a (filter p xs) → Memᴰ a xs × (p a ≡ true)
  unfolding filter
  filter-Memᴰ p [] h = elim h [ ]
  filter-Memᴰ p {a} (x ∷ xs) h = elim (Bool-cases (p x)) [
    | inl e ↦ in_kept (filter-Memᴰ p xs) e (rw (e, filter) at h)
    | inr e ↦ let (m, q) = filter-Memᴰ p xs (rw (e, filter) at h) in (tail m, q)
  ]
    where
      in_kept :
          (Memᴰ a (filter p xs) → Memᴰ a xs × (p a ≡ true))
          → p x ≡ true
          → Memᴰ a (x ∷ filter p xs)
          → Memᴰ a (x ∷ xs) × (p a ≡ true)
      in_kept ih e (head same) = (head same, rw same e)
      in_kept ih e (tail m) = let (m', q) = ih m in (tail m', q)

  pub Memᴰ-filter :
      (p : A → Bool) {a : A} {xs : List A} → Memᴰ a xs → p a ≡ true → Memᴰ a (filter p xs)
  unfolding filter
  Memᴰ-filter p {a} (head {x} {xs} same) e = rw (sym same, e) (head refl)
  Memᴰ-filter p (tail {x} {xs} m) e = elim (Bool-cases (p x)) [
    | inl k ↦ rw k (tail (Memᴰ-filter p m e))
    | inr k ↦ rw k (Memᴰ-filter p m e)
  ]

  Memᴰ-append_last : {a x : A} (xs : List A) → Memᴰ a (xs ++ x ∷ []) → Memᴰ a xs ⊎ (a ≡ x)
  Memᴰ-append_last [] (head same) = inr same
  Memᴰ-append_last [] (tail m) = elim m [ ]
  Memᴰ-append_last (y ∷ xs) (head same) = inl (head same)
  Memᴰ-append_last (y ∷ xs) (tail m) = elim (Memᴰ-append_last xs m) [
    | inl m' ↦ inl (tail m')
    | inr same ↦ inr same
  ]

  Memᴰ-append_left : {a : A} {xs : List A} (ys : List A) → Memᴰ a xs → Memᴰ a (xs ++ ys)
  Memᴰ-append_left ys (head same) = head same
  Memᴰ-append_left ys (tail m) = tail (Memᴰ-append_left ys m)

  Memᴰ-append_right : {a : A} (xs : List A) {ys : List A} → Memᴰ a ys → Memᴰ a (xs ++ ys)
  Memᴰ-append_right [] m = m
  Memᴰ-append_right (x ∷ xs) m = tail (Memᴰ-append_right xs m)

  pub Memᴰ-append_single : (a x : A) (xs : List A) → Memᴰ a (xs ++ x ∷ []) ↔ (Memᴰ a xs ⊎ (x ≡ a))
  Memᴰ-append_single a x xs = (
    λ m. elim (Memᴰ-append_last xs m) [ inl k ↦ inl k | inr e ↦ inr (sym e) ],
    λ k. elim k [
      | inl m ↦ Memᴰ-append_left (x ∷ []) m
      | inr e ↦ Memᴰ-append_right xs (head (sym e))
    ],
  )

  -- Nothing is left exactly when nothing passes.
  pub is_empty-filter_iff :
      (p : A → Bool) (xs : List A)
      → (is_empty (filter p xs) ≡ true) ↔ ((a : A) → Memᴰ a xs → p a ≡ false)
  is_empty-filter_iff p xs = (none_passes, nothing_left)
    where
      none_passes : is_empty (filter p xs) ≡ true → (a : A) → Memᴰ a xs → p a ≡ false
      none_passes h a m = elim (Bool-cases (p a)) [
        | inl e ↦ absurd (is_empty-Memᴰ _ h (Memᴰ-filter p m e))
        | inr e ↦ e
      ]

      nothing_left : ((a : A) → Memᴰ a xs → p a ≡ false) → is_empty (filter p xs) ≡ true
      nothing_left h = elim (Bool-cases (is_empty (filter p xs))) [
        | inl e ↦ e
        | inr e ↦
            let (a, m) = some_Memᴰ (filter p xs) e in
            let (m', k) = filter-Memᴰ p xs m in absurd (bool_clash k (h a m'))
      ]

module _ {ℓ κ} {A : Type ℓ} (P : A → Type κ) where
  abbrev pub All : List A → Type κ
  All [] = Unit
  All (x ∷ xs) = P x × All xs

  pub All-Memᴰ : {a : A} (l : List A) → All l → Memᴰ a l → P a
  All-Memᴰ (x ∷ l) (p, _) (head same) = subst P (sym same) p
  All-Memᴰ (x ∷ l) (_, ps) (tail m) = All-Memᴰ l ps m
  All-Memᴰ [] h m = elim m [ ]

  Memᴰ-All : (l : List A) → ((a : A) → Memᴰ a l → P a) → All l
  Memᴰ-All [] h = tt
  Memᴰ-All (x ∷ l) h = (h x (head refl), Memᴰ-All l (λ a m. h a (tail m)))

  pub All-append : (l m : List A) → All l → All m → All (l ++ m)
  All-append [] m a b = b
  All-append (x ∷ l) m (p, a) b = (p, All-append l m a b)

  append-All : (l m : List A) → All (l ++ m) → All l × All m
  append-All [] m b = (tt, b)
  append-All (x ∷ l) m (p, b) = let (a, c) = append-All l m b in ((p, a), c)
