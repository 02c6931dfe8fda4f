-- ===== src/Base/Sort.antt =====
-- sort.Strings and sort.Slice: one sorting function, by insertion. Package sort promises a sorted
-- permutation and no order among equal elements; the insertion keeps their order.
use Prim.Native.Nat.{suc}
use mathlib.Core.Path.{◌≡◌, refl, ap, ◌∙◌}
use mathlib.Core.Logic.{inl, inr}
use mathlib.Core.Bool.{Bool, true, false}
use mathlib.Core.List.{List, [], ◌∷◌, Memᴰ, Perm}
use mathlib.Core.List.Memᴰ.{head, tail}
use mathlib.Core.List.Perm
use majordomo_gateway.Base.Tests.{if◌then◌else◌, Bool-cases}
use majordomo_gateway.Base.Lists.{All, length}
use majordomo_gateway.Base.Text.{Str, str_lt, str_lt_asymm, str_lt_trans_not}

module _ {ℓ} {A : Type ℓ} where
  swap_head : {a x y : A} {zs : List A} → Memᴰ a (x ∷ y ∷ zs) → Memᴰ a (y ∷ x ∷ zs)
  swap_head (head same) = tail (head same)
  swap_head (tail (head same)) = head same
  swap_head (tail (tail m)) = tail (tail m)

  under : {a x : A} {xs ys : List A} → (Memᴰ a xs → Memᴰ a ys) → Memᴰ a (x ∷ xs) → Memᴰ a (x ∷ ys)
  under f (head same) = head same
  under f (tail m) = tail (f m)

module _ {ℓ} {A : Type ℓ} (less : A → A → Bool) where
  unfoldable pub insert_by : A → List A → List A
  insert_by x [] = x ∷ []
  insert_by x (y ∷ ys) = let later = y ∷ insert_by x ys in if less y x then later else x ∷ y ∷ ys

  unfoldable pub sort_by : List A → List A
  unfolding insert_by
  sort_by [] = []
  sort_by (x ∷ xs) = insert_by x (sort_by xs)

  insert_by-perm : (x : A) (ys : List A) → Perm (insert_by x ys) (x ∷ ys)
  unfolding insert_by
  insert_by-perm x [] = Perm.refl _
  insert_by-perm x (y ∷ ys) = elim (Bool-cases (less y x)) [
    | inl e ↦ rw e (Perm.trans (Perm.cons y (insert_by-perm x ys)) (Perm.swap x y ys))
    | inr e ↦ rw e (Perm.refl _)
  ]

  length-insert_by : (x : A) (ys : List A) → length (insert_by x ys) ≡ suc (length ys)
  unfolding insert_by
  length-insert_by x [] = refl
  length-insert_by x (y ∷ ys) = elim (Bool-cases (less y x)) [
    | inl e ↦ rw e (ap suc (length-insert_by x ys))
    | inr e ↦ rw e refl
  ]

  pub length-sort_by : (xs : List A) → length (sort_by xs) ≡ length xs
  unfolding sort_by
  length-sort_by [] = refl
  length-sort_by (x ∷ xs) = length-insert_by x (sort_by xs) ∙ ap suc (length-sort_by xs)

  -- Sorting loses and adds nothing.
  pub sort_by-perm : (xs : List A) → Perm (sort_by xs) xs
  unfolding sort_by
  sort_by-perm [] = Perm.refl _
  sort_by-perm (x ∷ xs) = Perm.trans (insert_by-perm x (sort_by xs)) (Perm.cons x (sort_by-perm xs))

  -- No element is less than one before it.
  abbrev pub Sorted : List A → Type ℓ
  Sorted [] = Unit
  Sorted (x ∷ xs) = All (λ y. less y x ≡ false) xs × Sorted xs

  insert_by-All {κ} :
      (P : A → Type κ) (x : A) (ys : List A) → P x → All P ys → All P (insert_by x ys)
  unfolding insert_by
  insert_by-All P x [] p a = (p, tt)
  insert_by-All P x (y ∷ ys) p (q, a) = elim (Bool-cases (less y x)) [
    | inl e ↦ rw e (q, insert_by-All P x ys p a)
    | inr e ↦ rw e (p, (q, a))
  ]

  insert_by-Memᴰ : {a : A} (x : A) (ys : List A) → Memᴰ a (x ∷ ys) → Memᴰ a (insert_by x ys)
  unfolding insert_by
  insert_by-Memᴰ x [] m = m
  insert_by-Memᴰ {a} x (y ∷ ys) m = elim (Bool-cases (less y x)) [
    | inl e ↦ rw e (under (insert_by-Memᴰ x ys) (swap_head m))
    | inr e ↦ rw e m
  ]

  pub sort_by-Memᴰ : {a : A} {xs : List A} → Memᴰ a xs → Memᴰ a (sort_by xs)
  unfolding sort_by
  sort_by-Memᴰ (head {x} {xs} same) = insert_by-Memᴰ x (sort_by xs) (head same)
  sort_by-Memᴰ (tail {x} {xs} m) = insert_by-Memᴰ x (sort_by xs) (tail (sort_by-Memᴰ m))

  Memᴰ-insert_by : {a : A} (x : A) (ys : List A) → Memᴰ a (insert_by x ys) → Memᴰ a (x ∷ ys)
  unfolding insert_by
  Memᴰ-insert_by x [] m = m
  Memᴰ-insert_by {a} x (y ∷ ys) m = elim (Bool-cases (less y x)) [
    | inl e ↦ swap_head (under (Memᴰ-insert_by x ys) (rw (e, insert_by) at m))
    | inr e ↦ rw (e, insert_by) at m
  ]

  pub Memᴰ-sort_by : {a : A} (xs : List A) → Memᴰ a (sort_by xs) → Memᴰ a xs
  unfolding sort_by
  Memᴰ-sort_by [] m = m
  Memᴰ-sort_by {a} (x ∷ xs) m = under (Memᴰ-sort_by xs) (Memᴰ-insert_by x (sort_by xs) m)

  module _ (asymm : (x y : A) → less x y ≡ true → less y x ≡ false)
      (trans_not : (x y z : A) → less x y ≡ false → less y z ≡ false → less x z ≡ false) where
    below-All :
        (x y : A) (zs : List A)
        → less y x ≡ false
        → All (λ z. less z y ≡ false) zs
        → All (λ z. less z x ≡ false) zs
    below-All x y [] h a = tt
    below-All x y (z ∷ zs) h (p, a) = (trans_not z y x p h, below-All x y zs h a)

    insert_by-Sorted : (x : A) (ys : List A) → Sorted ys → Sorted (insert_by x ys)
    unfolding insert_by
    insert_by-Sorted x [] s = (tt, tt)
    insert_by-Sorted x (y ∷ ys) (a, s) = elim (Bool-cases (less y x)) [
      | inl e ↦
          rw e (insert_by-All (λ z. less z y ≡ false) x ys (asymm y x e) a, insert_by-Sorted x ys s)
      | inr e ↦ rw e ((e, below-All x y ys e a), (a, s))
    ]

    pub sort_by-Sorted : (xs : List A) → Sorted (sort_by xs)
    unfolding sort_by
    sort_by-Sorted [] = tt
    sort_by-Sorted (x ∷ xs) = insert_by-Sorted x (sort_by xs) (sort_by-Sorted xs)

-- sort.Strings
unfoldable pub sort_strings : List Str → List Str
sort_strings = sort_by str_lt

pub sort_strings-Sorted : (xs : List Str) → Sorted str_lt (sort_strings xs)
unfolding sort_strings
sort_strings-Sorted = sort_by-Sorted str_lt str_lt_asymm str_lt_trans_not
