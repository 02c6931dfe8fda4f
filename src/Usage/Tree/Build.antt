-- ===== src/Usage/Tree/Build.antt =====
-- The store that assembleRunTree builds is a tree, and rollUpRunNode counts its calls.
use mathlib.Core.Path.{subst, fun_ext}
use majordomo_gateway.Base.{
  ℕ, zero, suc, ◌+◌, ◌≤◌, ◌<◌, ◌≡◌, refl, sym, ap, ◌∙◌, Option, none, some, List, [], ◌∷◌, ◌++◌,
  arith, eqb, All, if◌then◌else◌, Str, Float, length, length-append, add_int, int_mod,
}
use majordomo_gateway.Usage.Tree.{
  RunNode, get_elem?, append_child, add_node, roll_children, roll_up_run_node,
}
use majordomo_gateway.Usage.Tree.Growth.{total, sum_of, Ordered, grow, IsTree, grow-IsTree}

module _ {R : Type 0} where
  -- The children, and the calls that a node itself counts, by address.
  unfoldable pub kids_of : List (RunNode R) → ℕ → List ℕ
  kids_of store i = elim (get_elem? store i) [ none ↦ [] | some n ↦ n.children ]

  unfoldable pub own_of : List (RunNode R) → ℕ → ℕ
  own_of store i = elim (get_elem? store i) [ none ↦ 0 | some n ↦ n.request_count ]

  -- The calls in the store, in the order of creation, each with the path of its node.
  unfoldable pub calls_of : List (RunNode R) → List (Str × Str)
  calls_of [] = []
  calls_of (n ∷ store) =
      let rest = calls_of store in
      elim n.call [ none ↦ rest | some call ↦ (call.request_id, n.path) ∷ rest ]

  length-append_child :
      (p c : ℕ) (store : List (RunNode R)) → length (append_child p c store) ≡ length store
  unfolding append_child
  length-append_child p c [] = refl
  length-append_child zero c (n ∷ store) = refl
  length-append_child (suc p) c (n ∷ store) = ap suc (length-append_child p c store)

  pub length-add_node :
      (p : ℕ) (x : RunNode R) (store : List (RunNode R))
      → length (add_node p x store) ≡ suc (length store)
  unfolding add_node
  length-add_node p x store = omega (
    arith,
    length-append (append_child p (length store) store) (x ∷ []),
    length-append_child p (length store) store,
  )

  kids_of-last :
      (i : ℕ) (x : RunNode R) (store : List (RunNode R))
      → x.children ≡ []
      → kids_of (store ++ x ∷ []) i ≡ kids_of store i
  unfolding kids_of
  kids_of-last zero x [] e = ground arith
  kids_of-last (suc i) x [] e = refl
  kids_of-last zero x (n ∷ store) e = refl
  kids_of-last (suc i) x (n ∷ store) e = kids_of-last i x store e

  own_of-last :
      (i : ℕ) (x : RunNode R) (store : List (RunNode R))
      → own_of (store ++ x ∷ []) i
        ≡ (if eqb i (length store) then x.request_count else own_of store i)
  unfolding own_of
  own_of-last zero x [] = ground arith
  own_of-last (suc i) x [] = ground arith
  own_of-last zero x (n ∷ store) = ground arith
  own_of-last (suc i) x (n ∷ store) = ground (arith, own_of-last i x store)

  calls_of-last :
      (x : RunNode R) (store : List (RunNode R))
      → calls_of (store ++ x ∷ []) ≡ calls_of store ++ calls_of (x ∷ [])
  unfolding calls_of
  calls_of-last x [] = ground arith
  calls_of-last x (n ∷ store) = ground (arith, calls_of-last x store)

  kids_of-append :
      (p size i : ℕ) (x : RunNode R) (store : List (RunNode R))
      → x.children ≡ []
      → p < length store
      → kids_of (append_child p size store ++ x ∷ []) i ≡ grow p size (kids_of store) i
  unfolding append_child kids_of
  kids_of-append p size i x [] e h = absurd (omega arith)
  kids_of-append zero size zero x (n ∷ store) e h = ground arith
  kids_of-append zero size (suc i) x (n ∷ store) e h = ground (arith, kids_of-last i x store e)
  kids_of-append (suc p) size zero x (n ∷ store) e h = ground arith
  kids_of-append (suc p) size (suc i) x (n ∷ store) e h =
      ground (arith, kids_of-append p size i x store e)

  pub kids_of-add_node :
      (p i : ℕ) (x : RunNode R) (store : List (RunNode R))
      → x.children ≡ []
      → p < length store
      → kids_of (add_node p x store) i ≡ grow p (length store) (kids_of store) i
  unfolding add_node
  kids_of-add_node p i x store e h = kids_of-append p (length store) i x store e h

  own_of-append :
      (p size i : ℕ) (x : RunNode R) (store : List (RunNode R))
      → own_of (append_child p size store ++ x ∷ []) i
        ≡ (if eqb i (length store) then x.request_count else own_of store i)
  unfolding append_child own_of
  own_of-append p size zero x [] = ground arith
  own_of-append p size (suc i) x [] = ground arith
  own_of-append zero size zero x (n ∷ store) = ground arith
  own_of-append zero size (suc i) x (n ∷ store) = ground (arith, own_of-last i x store)
  own_of-append (suc p) size zero x (n ∷ store) = ground arith
  own_of-append (suc p) size (suc i) x (n ∷ store) = ground (arith, own_of-append p size i x store)

  calls_of-append :
      (p size : ℕ) (x : RunNode R) (store : List (RunNode R))
      → calls_of (append_child p size store ++ x ∷ []) ≡ calls_of store ++ calls_of (x ∷ [])
  unfolding append_child calls_of
  calls_of-append p size x [] = ground arith
  calls_of-append zero size x (n ∷ store) = ground (arith, calls_of-last x store)
  calls_of-append (suc p) size x (n ∷ store) = ground (arith, calls_of-append p size x store)

  pub calls_of-add_node :
      (p : ℕ) (x : RunNode R) (store : List (RunNode R))
      → calls_of (add_node p x store) ≡ calls_of store ++ calls_of (x ∷ [])
  unfolding add_node
  calls_of-add_node p x store = calls_of-append p (length store) x store

  -- The store is a tree from its first node, in which `n` calls are counted.
  abbrev pub IsStore : List (RunNode R) → ℕ → Type 0
  IsStore store n = IsTree (kids_of store) (length store) (own_of store) n

  pub add_node-IsStore :
      (p : ℕ) (x : RunNode R) (store : List (RunNode R)) (n : ℕ)
      → x.children ≡ []
      → p < length store
      → IsStore store n
      → IsStore (add_node p x store) (n + x.request_count)
  unfolding add_node
  add_node-IsStore p x store n e h t =
      let size = length store in
      let store' = add_node p x store in
      let kids : kids_of store' ≡ grow p size (kids_of store) =
        fun_ext (λ i. kids_of-append p size i x store e h) in
      let own = λ (i : ℕ). own_of-append p size i x store in
      let grown =
        grow-IsTree (kids_of store) size p (own_of store) (own_of store') n h
          (λ c k. ground (arith, own c)) t in
      let fits : own_of store' size ≡ x.request_count = ground (arith, own size) in
      subst (λ k. IsTree (kids_of store') (length store') (own_of store') (n + k)) fits
        (subst (λ s. IsTree (kids_of store') s (own_of store') (n + own_of store' size))
          (sym (length-add_node p x store))
          (subst (λ k. IsTree k (suc size) (own_of store') (n + own_of store' size)) (sym kids)
            grown))

module _ (F : Float) (interior_span_id : Str → Str → Str) where
  open F use {R}

  roll_children_counts :
      (roll : ℕ → Option (RunNode R)) (count : ℕ → ℕ) (cs : List ℕ) (n : RunNode R)
      → All (λ c. (m : RunNode R) × (roll c ≡ some m) × (m.request_count ≡ count c)) cs
      → n.request_count + sum_of count cs < int_mod
      → (m : RunNode R) × (roll_children F interior_span_id roll cs n ≡ some m)
        × (m.request_count ≡ n.request_count + sum_of count cs)
        × (m.children ≡ n.children)
  unfolding roll_children add_int
  roll_children_counts roll count [] n a h = (n, refl, omega arith, refl)
  roll_children_counts roll count (c ∷ cs) n ((child, e, k), a) h =
      let n' : RunNode R = record n {
        total_cost = F.add n.total_cost child.total_cost;
        request_count = add_int n.request_count child.request_count;
      } in
      let here : add_int n.request_count child.request_count ≡ n.request_count + count c =
        omega arith in
      let (m, r, q, kids) = roll_children_counts roll count cs n' a (omega (arith, here)) in
      rw (e, roll_children) (m, r, omega (arith, here), kids)

  All-roll :
      (P Q : ℕ → Type 0) (count : ℕ → ℕ) (cs : List ℕ) (bound : ℕ)
      → ((c : ℕ) → P c → count c < bound → Q c)
      → All P cs
      → sum_of count cs < bound
      → All Q cs
  All-roll P Q count [] bound f a h = tt
  All-roll P Q count (c ∷ cs) bound f (p, a) h =
      (f c p (omega arith), All-roll P Q count cs bound f a (omega arith))

  node_at :
      (store : List (RunNode R)) (i : ℕ)
      → i < length store
      → (n : RunNode R) × (get_elem? store i ≡ some n)
        × (kids_of store i ≡ n.children)
        × (own_of store i ≡ n.request_count)
  unfolding kids_of own_of
  node_at [] i h = absurd (omega arith)
  node_at (n ∷ store) zero h = (n, refl, refl, refl)
  node_at (n ∷ store) (suc i) h = node_at store i (omega arith)

  -- With as much fuel as there are nodes from an address on, the roll-up ends, and counts what is
  -- reached from there.
  pub roll_up_run_node_counts :
      (fuel i : ℕ) (store : List (RunNode R))
      → Ordered (kids_of store) (length store)
      → i < length store
      → length store ≤ i + fuel
      → total (own_of store) (kids_of store) fuel i < int_mod
      → (m : RunNode R) × (roll_up_run_node F interior_span_id fuel store i ≡ some m)
        × (m.request_count ≡ total (own_of store) (kids_of store) fuel i)
  unfolding roll_up_run_node total
  roll_up_run_node_counts zero i store o h k b = absurd (omega arith)
  roll_up_run_node_counts (suc fuel) i store o h k b =
      let (n, found, kids, own) = node_at store i h in
      let count = total (own_of store) (kids_of store) fuel in
      let roll = roll_up_run_node F interior_span_id fuel store in
      let bound : sum_of count (kids_of store i) < int_mod = omega arith in
      let below =
        All-roll (λ c. (i < c) × (c < length store))
          (λ c. (m : RunNode R) × (roll c ≡ some m) × (m.request_count ≡ count c)) count
          (kids_of store i) int_mod
          (λ c p q. roll_up_run_node_counts fuel c store o p.1 (omega arith) q) (o i) bound in
      let (m, r, q, _) =
        roll_children_counts roll count n.children n
          (subst (All (λ c. (m : RunNode R) × (roll c ≡ some m) × (m.request_count ≡ count c))) kids
            below)
          (subst (λ cs. n.request_count + sum_of count cs < int_mod) kids (omega (arith, own))) in
      rw (found, roll_up_run_node)
        (
          m,
          r,
          q
              ∙ sym (
                  ap (λ k. k + sum_of count (kids_of store i)) own
                  ∙ ap (λ cs. n.request_count + sum_of count cs) kids),
        )
