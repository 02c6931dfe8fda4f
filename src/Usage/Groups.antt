-- ===== src/Usage/Groups.antt =====
-- The groups of a GROUP BY: each has the rows of its key, in their order.
use mathlib.Core.List.Memᴰ.{head, tail}
use mathlib.Core.Path.{subst}
use majordomo_gateway.Base.{
  ◌≡◌, refl, ap, sym, ◌∙◌, ◌↔◌, Bool, true, false, ◌||◌, Bool-cases, inl, inr, List, [], ◌∷◌, map,
  arith, Memᴰ, if◌then◌else◌, filter, All, All-Memᴰ, is_empty, Memᴰ-sort_by, map,
}
use majordomo_gateway.Usage.Aggregate.{report, group_into, group_by}

module _ {ℓ κ} {A : Type ℓ} {K : Type κ} (same : K → K → Bool)
    (lawful : (j k : K) → (same j k ≡ true) ↔ (j ≡ k)) where
  -- The rows of the first group with a key; none where there is no such group.
  find : K → List (K × List A) → List A
  find k [] = []
  find k ((j, rows) ∷ groups) = if same j k then rows else find k groups

  has_key : K → List (K × List A) → Bool
  has_key k [] = false
  has_key k ((j, rows) ∷ groups) = same j k || has_key k groups

  abbrev DistinctKeys : List (K × List A) → Type 0
  DistinctKeys [] = Unit
  DistinctKeys ((k, rows) ∷ groups) = (has_key k groups ≡ false) × DistinctKeys groups

  find-group_into :
      (k j : K) (row : A) (groups : List (K × List A))
      → find k (group_into same j row groups)
        ≡ (if same j k then row ∷ find k groups else find k groups)
  unfolding find group_into
  find-group_into k j row [] = refl
  find-group_into k j row ((i, rows) ∷ groups) = elim (Bool-cases (same i j)) [
    | inl e ↦ rw e (ground (arith, ap (λ x. same x k) ((lawful i j).0 e)))
    | inr e ↦ rw e (elim (Bool-cases (same i k)) [
      | inl f ↦
          ground (arith, find-group_into k j row groups, e, f, lawful i k, lawful j k, lawful i j)
      | inr f ↦ rw f (find-group_into k j row groups)
    ])
  ]

  has_key-group_into :
      (k j : K) (row : A) (groups : List (K × List A))
      → has_key k (group_into same j row groups) ≡ (same j k || has_key k groups)
  unfolding has_key group_into
  has_key-group_into k j row [] = refl
  has_key-group_into k j row ((i, rows) ∷ groups) = elim (Bool-cases (same i j)) [
    | inl e ↦ rw e (ground (arith, ap (λ x. same x k) ((lawful i j).0 e)))
    | inr e ↦ rw e (ground (arith, has_key-group_into k j row groups))
  ]

  group_into-DistinctKeys :
      (j : K) (row : A) (groups : List (K × List A))
      → DistinctKeys groups
      → DistinctKeys (group_into same j row groups)
  unfolding group_into has_key
  group_into-DistinctKeys j row [] d = (refl, tt)
  group_into-DistinctKeys j row ((i, rows) ∷ groups) (h, d) = elim (Bool-cases (same i j)) [
    | inl e ↦ rw e (h, d)
    | inr e ↦ rw e (
      ground (arith, has_key-group_into i j row groups, lawful j i, lawful i j),
      group_into-DistinctKeys j row groups d,
    )
  ]

  group_by-DistinctKeys : (key : A → K) (rows : List A) → DistinctKeys (group_by same key rows)
  unfolding group_by
  group_by-DistinctKeys key [] = tt
  group_by-DistinctKeys key (row ∷ rows) =
      group_into-DistinctKeys (key row) row (group_by same key rows)
        (group_by-DistinctKeys key rows)

  find-group_by :
      (key : A → K) (k : K) (rows : List A)
      → find k (group_by same key rows) ≡ filter (λ row. same (key row) k) rows
  unfolding find group_by filter
  find-group_by key k [] = refl
  find-group_by key k (row ∷ rows) =
      ground
        (arith, find-group_into k (key row) row (group_by same key rows), find-group_by key k rows)

  Memᴰ-has_key :
      (k : K) (rows : List A) (groups : List (K × List A))
      → Memᴰ (k, rows) groups
      → has_key k groups ≡ true
  unfolding has_key
  Memᴰ-has_key k rows [] m = elim m [ ]
  Memᴰ-has_key k rows ((j, others) ∷ groups) (head e) = ground (arith, lawful j k, ap (λ g. g.0) e)
  Memᴰ-has_key k rows ((j, others) ∷ groups) (tail m) = ground (arith, Memᴰ-has_key k rows groups m)

  find-Memᴰ :
      (k : K) (rows : List A) (groups : List (K × List A))
      → DistinctKeys groups
      → Memᴰ (k, rows) groups
      → find k groups ≡ rows
  unfolding find
  find-Memᴰ k rows [] d m = elim m [ ]
  find-Memᴰ k rows ((j, others) ∷ groups) (h, d) (head e) =
      ground (arith, lawful j k, ap (λ g. g.0) e, ap (λ g. g.1) e)
  find-Memᴰ k rows ((j, others) ∷ groups) (h, d) (tail m) = elim (Bool-cases (same j k)) [
    | inl e ↦ ground (
      arith,
      lawful j k,
      Memᴰ-has_key k rows groups m,
      ap (λ x. has_key x groups) ((lawful j k).0 e),
    )
    | inr e ↦ rw e (find-Memᴰ k rows groups d m)
  ]

  -- A group has the rows of its key.
  pub group_by-rows :
      (key : A → K) (k : K) (group rows : List A)
      → Memᴰ (k, group) (group_by same key rows)
      → group ≡ filter (λ row. same (key row) k) rows
  group_by-rows key k group rows m =
      sym (find-Memᴰ k group (group_by same key rows) (group_by-DistinctKeys key rows) m)
      ∙ find-group_by key k rows

-- No group is empty.
group_into-some {ℓ κ} :
    {A : Type ℓ} {K : Type κ} (same : K → K → Bool) (k : K) (row : A) (groups : List (K × List A))
    → All (λ g. is_empty (g.1) ≡ false) groups
    → All (λ g. is_empty (g.1) ≡ false) (group_into same k row groups)
unfolding group_into
group_into-some same k row [] a = (refl, tt)
group_into-some same k row ((j, rows) ∷ groups) (p, a) = elim (Bool-cases (same j k)) [
  | inl e ↦ rw e (refl, a)
  | inr e ↦ rw e (p, group_into-some same k row groups a)
]

group_by-some {ℓ κ} :
    {A : Type ℓ} {K : Type κ} (same : K → K → Bool) (key : A → K) (rows : List A)
    → All (λ g. is_empty (g.1) ≡ false) (group_by same key rows)
unfolding group_by
group_by-some same key [] = tt
group_by-some same key (row ∷ rows) =
    group_into-some same (key row) row (group_by same key rows) (group_by-some same key rows)

pub Memᴰ-map {ℓ κ} :
    {A : Type ℓ} {B : Type κ} (f : A → B) {b : B} (xs : List A)
    → Memᴰ b (map f xs)
    → (a : A) × Memᴰ a xs × (f a ≡ b)
Memᴰ-map f [] m = elim m [ ]
Memᴰ-map f (x ∷ xs) (head e) = (x, head refl, sym e)
Memᴰ-map f (x ∷ xs) (tail m) = let (a, n, e) = Memᴰ-map f xs m in (a, tail n, e)

-- A line of a report is about the rows of its key.
pub report-line {ℓ κ} :
    {A : Type ℓ} {K : Type κ} {T L : Type ℓ} (same : K → K → Bool) (key : A → K)
    (aggregate : List A → T) (line : K → T → L) (less : L → L → Bool) (rows : List A) (l : L)
    → ((j k : K) → (same j k ≡ true) ↔ (j ≡ k))
    → Memᴰ l (report same key aggregate line less rows)
    → (k : K) × (line k (aggregate (filter (λ row. same (key row) k) rows)) ≡ l)
      × (is_empty (filter (λ row. same (key row) k) rows) ≡ false)
unfolding report
report-line same key aggregate line less rows l lawful m =
    let lines = map (λ g. line (g.0) (aggregate (g.1))) (group_by same key rows) in
    let (g, inside, e) =
      Memᴰ-map (λ g. line (g.0) (aggregate (g.1))) (group_by same key rows)
        (Memᴰ-sort_by less lines m) in
    let whole = group_by-rows same lawful key (g.0) (g.1) rows inside in
    (
      g.0,
      ap (λ rs. line (g.0) (aggregate rs)) (sym whole) ∙ e,
      subst (λ rs. is_empty rs ≡ false) whole
          (All-Memᴰ (λ g. is_empty (g.1) ≡ false) (group_by same key rows)
            (group_by-some same key rows) inside),
    )
