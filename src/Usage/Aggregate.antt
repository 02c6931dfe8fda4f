-- ===== src/Usage/Aggregate.antt =====
-- What the statements of internal/repositories/usage.go use of SQL: SUM, GROUP BY, ORDER BY, LIMIT.
use mathlib.Core.Path.{fun_ext}
use majordomo_gateway.Base.{
  ℕ, ◌≡◌, refl, ap, ◌∙◌, Bool, Bool-cases, inl, inr, List, [], ◌∷◌, map, arith, if◌then◌else◌,
  add_int, sort_by, insert_by, take, drop,
}

module _ {ℓ} {A : Type ℓ} where
  -- COALESCE(SUM(column), 0), a 64-bit integer; COUNT(*) is the sum of ones
  unfoldable pub sum_int : (A → ℕ) → List A → ℕ
  unfolding add_int
  sum_int column [] = 0
  sum_int column (row ∷ rows) = add_int (column row) (sum_int column rows)

  -- LIMIT limit OFFSET offset
  abbrev pub page : ℕ → ℕ → List A → List A
  page limit offset rows = take limit (drop offset rows)

module _ {ℓ κ} {A : Type ℓ} {K : Type κ} (same : K → K → Bool) where
  unfoldable pub group_into : K → A → List (K × List A) → List (K × List A)
  group_into k row [] = (k, row ∷ []) ∷ []
  group_into k row ((j, rows) ∷ groups) =
      let rest = group_into k row groups in
      if same j k then (j, row ∷ rows) ∷ groups else (j, rows) ∷ rest

  -- GROUP BY key
  unfoldable pub group_by : (A → K) → List A → List (K × List A)
  unfolding group_into
  group_by key [] = []
  group_by key (row ∷ rows) = group_into (key row) row (group_by key rows)

  sum_int-group_into :
      (column : A → ℕ) (k : K) (row : A) (groups : List (K × List A))
      → sum_int (λ g. sum_int column (g.1)) (group_into k row groups)
        ≡ add_int (column row) (sum_int (λ g. sum_int column (g.1)) groups)
  unfolding group_into sum_int
  sum_int-group_into column k row [] = omega arith
  sum_int-group_into column k row ((j, rows) ∷ groups) = elim (Bool-cases (same j k)) [
    | inl e ↦ rw e (omega arith)
    | inr e ↦ rw e (omega (arith, sum_int-group_into column k row groups))
  ]

  -- The sums of the groups add up to the sum of the rows.
  pub sum_int-group_by :
      (column : A → ℕ) (key : A → K) (rows : List A)
      → sum_int (λ g. sum_int column (g.1)) (group_by key rows) ≡ sum_int column rows
  unfolding group_by sum_int
  sum_int-group_by column key [] = refl
  sum_int-group_by column key (row ∷ rows) =
      sum_int-group_into column (key row) row (group_by key rows)
      ∙ ap (add_int (column row)) (sum_int-group_by column key rows)

module _ {ℓ} {A : Type ℓ} where
  sum_int-insert_by :
      (less : A → A → Bool) (column : A → ℕ) (x : A) (xs : List A)
      → sum_int column (insert_by less x xs) ≡ add_int (column x) (sum_int column xs)
  unfolding insert_by sum_int
  sum_int-insert_by less column x [] = refl
  sum_int-insert_by less column x (y ∷ ys) = elim (Bool-cases (less y x)) [
    | inl e ↦ rw e (omega (arith, sum_int-insert_by less column x ys))
    | inr e ↦ rw e
  ]

  -- Neither does sorting change a sum.
  pub sum_int-sort_by :
      (less : A → A → Bool) (column : A → ℕ) (xs : List A)
      → sum_int column (sort_by less xs) ≡ sum_int column xs
  unfolding sort_by sum_int
  sum_int-sort_by less column [] = refl
  sum_int-sort_by less column (x ∷ xs) =
      sum_int-insert_by less column x (sort_by less xs)
      ∙ ap (add_int (column x)) (sum_int-sort_by less column xs)

pub sum_int-map {ℓ κ} :
    {A : Type ℓ} {B : Type κ} (column : B → ℕ) (f : A → B) (xs : List A)
    → sum_int column (map f xs) ≡ sum_int (λ x. column (f x)) xs
unfolding sum_int
sum_int-map column f [] = refl
sum_int-map column f (x ∷ xs) = ap (add_int (column (f x))) (sum_int-map column f xs)

-- SELECT key, aggregates GROUP BY key ORDER BY less: a line for each group.
unfoldable pub report {ℓ κ} :
    {A : Type ℓ} {K : Type κ} {T L : Type ℓ}
    → (K → K → Bool)
    → (A → K)
    → (List A → T)
    → (K → T → L)
    → (L → L → Bool)
    → List A
    → List L
unfolding group_by sort_by
report same key aggregate line less rows =
    sort_by less (map (λ g. line (g.0) (aggregate (g.1))) (group_by same key rows))

-- What a column of a report adds up to, where the column is a sum over the rows of the group.
pub sum_int-report {ℓ κ} :
    {A : Type ℓ} {K : Type κ} {T L : Type ℓ} (same : K → K → Bool) (key : A → K)
    (aggregate : List A → T) (line : K → T → L) (less : L → L → Bool) (column : L → ℕ)
    (of_row : A → ℕ) (rows : List A)
    → ((k : K) (group : List A) → column (line k (aggregate group)) ≡ sum_int of_row group)
    → sum_int column (report same key aggregate line less rows) ≡ sum_int of_row rows
unfolding report
sum_int-report same key aggregate line less column of_row rows e =
    sum_int-sort_by less column (map (λ g. line (g.0) (aggregate (g.1))) (group_by same key rows))
    ∙ sum_int-map column (λ g. line (g.0) (aggregate (g.1))) (group_by same key rows)
    ∙ ap (λ c. sum_int c (group_by same key rows)) (fun_ext (λ g. e (g.0) (g.1)))
    ∙ sum_int-group_by same of_row key rows
