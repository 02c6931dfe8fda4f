-- ===== src/Usage/Tree/Growth.antt =====
-- Totals over a store whose children have greater addresses, and what one more node adds to them.
use native.Mathlib.Nat.{mul-add}
use majordomo_gateway.Base.{
  ℕ, zero, suc, ◌+◌, ◌*◌, ◌≤◌, ◌<◌, ◌≡◌, refl, ap, List, [], ◌∷◌, ◌++◌, arith, eqb, All, inl, inr,
  Bool-cases, if◌then◌else◌,
}

-- The sum of a function over a list of addresses.
abbrev pub sum_of : (ℕ → ℕ) → List ℕ → ℕ
sum_of f [] = 0
sum_of f (c ∷ cs) = f c + sum_of f cs

-- The weights of all nodes that are reached from an address, each as often as it is reached.
unfoldable pub total : (ℕ → ℕ) → (ℕ → List ℕ) → ℕ → ℕ → ℕ
total weight kids zero i = 0
total weight kids (suc fuel) i = weight i + sum_of (total weight kids fuel) (kids i)

-- The weight that counts the ways to one address.
abbrev pub at_address : ℕ → ℕ → ℕ
at_address p i = if eqb i p then 1 else 0

-- Children stand behind their parents, in a store of `size` nodes.
abbrev pub Ordered : (ℕ → List ℕ) → ℕ → Type 0
Ordered kids size = (i : ℕ) → All (λ c. (i < c) × (c < size)) (kids i)

-- The children where one more node, the next one, hangs below `p`.
abbrev pub grow : ℕ → ℕ → (ℕ → List ℕ) → ℕ → List ℕ
grow p size kids i = if eqb i p then kids i ++ size ∷ [] else kids i

none_past : (size : ℕ) (cs : List ℕ) → All (λ c. (size < c) × (c < size)) cs → cs ≡ []
none_past size [] a = refl
none_past size (c ∷ cs) ((h, k), a) = absurd (omega arith)

sum_of-append : (f : ℕ → ℕ) (cs ds : List ℕ) → sum_of f (cs ++ ds) ≡ sum_of f cs + sum_of f ds
sum_of-append f [] ds = omega arith
sum_of-append f (c ∷ cs) ds = omega (arith, sum_of-append f cs ds)

pub All-append_last : (P : ℕ → Type 0) (cs : List ℕ) (c : ℕ) → All P cs → P c → All P (cs ++ c ∷ [])
All-append_last P [] c a p = (p, tt)
All-append_last P (d ∷ cs) c (q, a) p = (q, All-append_last P cs c a p)

pub All-mono : (P Q : ℕ → Type 0) (cs : List ℕ) → ((c : ℕ) → P c → Q c) → All P cs → All Q cs
All-mono P Q [] f a = tt
All-mono P Q (c ∷ cs) f (p, a) = (f c p, All-mono P Q cs f a)

pub All-both :
    (P Q S : ℕ → Type 0) (cs : List ℕ)
    → ((c : ℕ) → P c → Q c → S c)
    → All P cs
    → All Q cs
    → All S cs
All-both P Q S [] f a b = tt
All-both P Q S (c ∷ cs) f (p, a) (q, b) = (f c p q, All-both P Q S cs f a b)

pub Ordered-grow :
    (kids : ℕ → List ℕ) (size p : ℕ)
    → p < size
    → Ordered kids size
    → Ordered (grow p size kids) (suc size)
Ordered-grow kids size p h o i =
    let wider =
      All-mono (λ c. (i < c) × (c < size)) (λ c. (i < c) × (c < suc size)) (kids i)
        (λ c q. (q.0, omega arith)) (o i) in
    elim (Bool-cases (eqb i p)) [
      | inl e ↦
          rw e (All-append_last (λ c. (i < c) × (c < suc size)) (kids i) size wider (ground arith))
      | inr e ↦ rw e wider
    ]

module _ (kids : ℕ → List ℕ) (size p : ℕ) (ordered : Ordered kids size) where
  -- The new node has no children.
  total_new :
      (weight : ℕ → ℕ) (fuel : ℕ)
      → p < size
      → total weight (grow p size kids) (suc fuel) size ≡ weight size
  unfolding total
  total_new weight fuel h = let e = none_past size (kids size) (ordered size) in ground (arith, e)

  sum_grow :
      (f g r : ℕ → ℕ) (w i : ℕ) (cs : List ℕ)
      → ((c : ℕ) → i < c → c < size → f c ≡ g c + w * r c)
      → All (λ c. (i < c) × (c < size)) cs
      → sum_of f cs ≡ sum_of g cs + w * sum_of r cs
  sum_grow f g r w i [] e a = omega arith
  sum_grow f g r w i (c ∷ cs) e ((h, k), a) =
      omega (arith, e c h k, sum_grow f g r w i cs e a, mul-add w (r c) (sum_of r cs))

  -- One more node adds its weight once for each way to its parent.
  pub total-grow :
      (weight : ℕ → ℕ) (fuel i : ℕ)
      → p < size
      → i < size
      → size ≤ i + fuel
      → total weight (grow p size kids) (suc fuel) i
        ≡ total weight kids fuel i + weight size * total (at_address p) kids fuel i
  unfolding total
  total-grow weight zero i hp h k = absurd (omega arith)
  total-grow weight (suc fuel) i hp h k =
      let below =
        sum_grow (total weight (grow p size kids) (suc fuel)) (total weight kids fuel)
          (total (at_address p) kids fuel) (weight size) i (kids i)
          (λ c q r. total-grow weight fuel c hp r (omega arith)) (ordered i) in
      elim (Bool-cases (eqb i p)) [
        | inl e ↦ rw e (
            omega (
              arith,
              below,
              sum_of-append (total weight (grow p size kids) (suc fuel)) (kids i) (size ∷ []),
              total_new weight fuel hp,
              mul-add (weight size) 1 (sum_of (total (at_address p) kids fuel) (kids i)),
            ))
        | inr e ↦ rw e (omega (arith, below))
      ]

  sum_cong :
      (f g : ℕ → ℕ) (i : ℕ) (cs : List ℕ)
      → ((c : ℕ) → i < c → c < size → f c ≡ g c)
      → All (λ c. (i < c) × (c < size)) cs
      → sum_of f cs ≡ sum_of g cs
  sum_cong f g i [] e a = refl
  sum_cong f g i (c ∷ cs) e ((h, k), a) = omega (arith, e c h k, sum_cong f g i cs e a)

  -- Only the weights of nodes that are there count.
  pub total_cong :
      (weight weight' : ℕ → ℕ) (fuel i : ℕ)
      → i < size
      → ((c : ℕ) → c < size → weight c ≡ weight' c)
      → total weight kids fuel i ≡ total weight' kids fuel i
  unfolding total
  total_cong weight weight' zero i h e = refl
  total_cong weight weight' (suc fuel) i h e = omega (
    arith,
    e i h,
    sum_cong (total weight kids fuel) (total weight' kids fuel) i (kids i)
        (λ c q r. total_cong weight weight' fuel c r e) (ordered i),
  )

  sum_zero :
      (f : ℕ → ℕ) (i : ℕ) (cs : List ℕ)
      → ((c : ℕ) → i < c → c < size → f c ≡ 0)
      → All (λ c. (i < c) × (c < size)) cs
      → sum_of f cs ≡ 0
  sum_zero f i [] e a = refl
  sum_zero f i (c ∷ cs) e ((h, k), a) = omega (arith, e c h k, sum_zero f i cs e a)

  -- No way leads to an address that is not there.
  pub total_out : (fuel i : ℕ) → i < size → total (at_address size) kids fuel i ≡ 0
  unfolding total
  total_out zero i h = refl
  total_out (suc fuel) i h = ground (
    arith,
    sum_zero (total (at_address size) kids fuel) i (kids i) (λ c q r. total_out fuel c r)
        (ordered i),
  )

-- A store of `size` nodes in which each is reached once from the first, and whose weights add up to `n`.
pub record IsTree (kids : ℕ → List ℕ) (size : ℕ) (weight : ℕ → ℕ) (n : ℕ) : Type 0 where
  pub rooted : 0 < size
  pub ordered : Ordered kids size
  pub once : (q : ℕ) → q < size → total (at_address q) kids size 0 ≡ 1
  pub counted : total weight kids size 0 ≡ n

pub grow-IsTree :
    (kids : ℕ → List ℕ) (size p : ℕ) (weight weight' : ℕ → ℕ) (n : ℕ)
    → p < size
    → ((c : ℕ) → c < size → weight' c ≡ weight c)
    → IsTree kids size weight n
    → IsTree (grow p size kids) (suc size) weight' (n + weight' size)
grow-IsTree kids size p weight weight' n h e t = record {
  rooted = omega arith;
  ordered = Ordered-grow kids size p h t.ordered;
  once = λ q k.
      let step = total-grow kids size p t.ordered (at_address q) size 0 h t.rooted (omega arith) in
      elim (Bool-cases (eqb size q)) [
        | inl same ↦
            let same : size ≡ q = ground arith in
            ground (
              arith,
              step,
              t.once p h,
              ap (λ x. total (at_address x) kids size 0) same,
              total_out kids size p t.ordered size 0 t.rooted,
            )
        | inr other ↦ ground (arith, step, t.once q (ground arith), t.once p h)
      ];
  counted = ground (
    arith,
    total-grow kids size p t.ordered weight' size 0 h t.rooted,
    total_cong kids size p t.ordered weight' weight size 0 t.rooted e,
    t.once p h,
    t.counted,
  );
}
