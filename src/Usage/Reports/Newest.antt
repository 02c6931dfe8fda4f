-- ===== src/Usage/Reports/Newest.antt =====
-- ORDER BY requested_at DESC of internal/repositories/usage.go over rows of which no two have the same
-- time: what it gives does not depend on the order in which the database meets the rows.
use mathlib.Core.List.{Permᴰ}
use majordomo_gateway.Base.{
  ◌≡◌, ◌≢◌, ◌∙◌, refl, sym, ap, Bool, true, false, List, [], ◌∷◌, arith, All, ltb, sort_by,
  insert_by, Sorted, sort_by-Sorted,
}
use mathlib.Core.Path.{subst}
use majordomo_gateway.Logs.Types.{RequestLog}

module _ {R : Type 0} where
  abbrev pub newer : RequestLog R → RequestLog R → Bool
  newer a b = ltb b.requested_at a.requested_at

  -- No two of the rows have the same time.
  abbrev pub Apart : List (RequestLog R) → Type 0
  Apart [] = Unit
  Apart (row ∷ rows) = All (λ r. row.requested_at ≢ r.requested_at) rows × Apart rows

  insert_by-insert_by :
      (x y : RequestLog R) (zs : List (RequestLog R))
      → x.requested_at ≢ y.requested_at
      → insert_by newer x (insert_by newer y zs) ≡ insert_by newer y (insert_by newer x zs)
  unfolding insert_by
  insert_by-insert_by x y [] n = ground (arith, n)
  insert_by-insert_by x y (z ∷ zs) n = ground (arith, n, insert_by-insert_by x y zs n)

  All-Permᴰ :
      (P : RequestLog R → Type 0) {xs ys : List (RequestLog R)} → Permᴰ xs ys → All P xs → All P ys
  All-Permᴰ P Permᴰ.nil a = a
  All-Permᴰ P (Permᴰ.cons e p) (h, a) = (subst P e h, All-Permᴰ P p a)
  All-Permᴰ P (Permᴰ.swap e e') (h, (k, a)) = (subst P e' k, (subst P e h, a))
  All-Permᴰ P (Permᴰ.trans p q) a = All-Permᴰ P q (All-Permᴰ P p a)

  Apart-Permᴰ : {xs ys : List (RequestLog R)} → Permᴰ xs ys → Apart xs → Apart ys
  Apart-Permᴰ Permᴰ.nil a = a
  Apart-Permᴰ (Permᴰ.cons {l₂ = l} e p) (h, a) = (
    subst (λ x. All (λ r. x.requested_at ≢ r.requested_at) l) e
        (All-Permᴰ (λ r. _ ≢ r.requested_at) p h),
    Apart-Permᴰ p a,
  )
  Apart-Permᴰ (Permᴰ.swap {a} {b} {a'} {b'} {l} e e') ((n, h), (k, apart)) =
      let swapped : Apart (b ∷ a ∷ l) = ((λ same. n (sym same), k), (h, apart)) in
      subst (λ x. Apart (x ∷ b' ∷ l)) e' (subst (λ x. Apart (b ∷ x ∷ l)) e swapped)
  Apart-Permᴰ (Permᴰ.trans p q) a = Apart-Permᴰ q (Apart-Permᴰ p a)

  pub sort_by-Permᴰ :
      {xs ys : List (RequestLog R)} → Permᴰ xs ys → Apart xs → sort_by newer xs ≡ sort_by newer ys
  unfolding sort_by
  sort_by-Permᴰ Permᴰ.nil a = refl
  sort_by-Permᴰ (Permᴰ.cons {a = x} {l₂ = l} e p) (h, a) =
      ap (insert_by newer x) (sort_by-Permᴰ p a) ∙ ap (λ y. insert_by newer y (sort_by newer l)) e
  sort_by-Permᴰ (Permᴰ.swap {a = x} {b = y} {b'} {l} e e') ((n, h), (k, a)) =
      insert_by-insert_by x y (sort_by newer l) n
      ∙ ap (λ z. insert_by newer y (insert_by newer z (sort_by newer l))) e
      ∙ ap (λ z. insert_by newer z (insert_by newer b' (sort_by newer l))) e'
  sort_by-Permᴰ (Permᴰ.trans p q) a = sort_by-Permᴰ p a ∙ sort_by-Permᴰ q (Apart-Permᴰ p a)

  newer_trans_not :
      (x y z : RequestLog R) → newer x y ≡ false → newer y z ≡ false → newer x z ≡ false
  newer_trans_not x y z h k = ground (arith, h, k)

  newer_once : (x y : RequestLog R) → newer x y ≡ true → newer y x ≡ false
  newer_once x y h = ground (arith, h)

  pub sort_by-newest : (rows : List (RequestLog R)) → Sorted newer (sort_by newer rows)
  sort_by-newest rows = sort_by-Sorted newer newer_once newer_trans_not rows
