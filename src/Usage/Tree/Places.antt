-- ===== src/Usage/Tree/Places.antt =====
-- Where the nodes of a run tree stand: a call below the node of its path, a step below the node that its
-- path goes on from.
use majordomo_gateway.Base.{
  ℕ, zero, suc, ◌<◌, ◌≡◌, refl, ap, ◌∙◌, Bool-cases, inl, inr, Option, none, some, List, [], ◌∷◌,
  ◌++◌, arith, eqb, All, Str, length, if◌then◌else◌,
}
use majordomo_gateway.Proxy.Spans.{split_path}
use majordomo_gateway.Usage.Tree.{RunCall, RunNode, get_elem?, append_child, add_node}
use majordomo_gateway.Usage.Tree.Growth.{Ordered, All-append_last, All-both}
use majordomo_gateway.Usage.Tree.Build.{kids_of, kids_of-add_node}

module _ {R : Type 0} where
  -- A node with its children left aside, and the one at an address.
  abbrev pub bare : RunNode R → RunNode R
  bare n = record n { children = [] }

  unfoldable pub bare_at : List (RunNode R) → ℕ → Option (RunNode R)
  bare_at store i = elim (get_elem? store i) [ none ↦ none | some n ↦ some (bare n) ]

  -- What may hang below a node that is no call: a call with the same path, or a step whose name is what
  -- its path has more.
  pub data IsBelow (above below : RunNode R) : Type 0 where
    call_below :
        (call : RunCall)
        → above.call ≡ none
        → below.call ≡ some call
        → below.path ≡ above.path
        → IsBelow above below
    step_below :
        above.call ≡ none
        → below.call ≡ none
        → split_path below.path ≡ split_path above.path ++ below.name ∷ []
        → IsBelow above below

  abbrev pub IsEdge : List (RunNode R) → ℕ → ℕ → Type 0
  IsEdge store i c =
      (above : RunNode R) × (below : RunNode R) × (bare_at store i ≡ some above)
      × (bare_at store c ≡ some below)
      × IsBelow above below

  -- Every child is where it belongs.
  abbrev pub IsPlaced : List (RunNode R) → Type 0
  IsPlaced store = (i : ℕ) → All (λ c. IsEdge store i c) (kids_of store i)

  -- The node at an address is no call, and has a path.
  abbrev pub IsAt : List (RunNode R) → ℕ → Str → Type 0
  IsAt store a path =
      (n : RunNode R) × (bare_at store a ≡ some n) × (n.path ≡ path) × (n.call ≡ none)

  bare_at-last :
      (i : ℕ) (x : RunNode R) (store : List (RunNode R))
      → bare_at (store ++ x ∷ []) i
        ≡ (if eqb i (length store) then some (bare x) else bare_at store i)
  unfolding bare_at
  bare_at-last zero x [] = ground arith
  bare_at-last (suc i) x [] = ground arith
  bare_at-last zero x (n ∷ store) = ground arith
  bare_at-last (suc i) x (n ∷ store) = ground (arith, bare_at-last i x store)

  bare_at-append :
      (p size i : ℕ) (x : RunNode R) (store : List (RunNode R))
      → bare_at (append_child p size store ++ x ∷ []) i
        ≡ (if eqb i (length store) then some (bare x) else bare_at store i)
  unfolding append_child bare_at
  bare_at-append p size zero x [] = ground arith
  bare_at-append p size (suc i) x [] = ground arith
  bare_at-append zero size zero x (n ∷ store) = ground arith
  bare_at-append zero size (suc i) x (n ∷ store) = ground (arith, bare_at-last i x store)
  bare_at-append (suc p) size zero x (n ∷ store) = ground arith
  bare_at-append (suc p) size (suc i) x (n ∷ store) =
      ground (arith, bare_at-append p size i x store)

  bare_at-old :
      (p i : ℕ) (x : RunNode R) (store : List (RunNode R))
      → i < length store
      → bare_at (add_node p x store) i ≡ bare_at store i
  unfolding add_node
  bare_at-old p i x store h = ground (arith, bare_at-append p (length store) i x store)

  bare_at-new :
      (p : ℕ) (x : RunNode R) (store : List (RunNode R))
      → bare_at (add_node p x store) (length store) ≡ some (bare x)
  unfolding add_node
  bare_at-new p x store = ground (arith, bare_at-append p (length store) (length store) x store)

  pub IsAt-add_node :
      (p a : ℕ) (path : Str) (x : RunNode R) (store : List (RunNode R))
      → a < length store
      → IsAt store a path
      → IsAt (add_node p x store) a path
  IsAt-add_node p a path x store h (n, e, k, c) = (n, bare_at-old p a x store h ∙ e, k, c)

  pub IsAt-new :
      (p : ℕ) (x : RunNode R) (store : List (RunNode R))
      → x.call ≡ none
      → IsAt (add_node p x store) (length store) x.path
  IsAt-new p x store h = (bare x, bare_at-new p x store, refl, h)

  -- A node is hung where it belongs.
  pub add_node-IsPlaced :
      (p : ℕ) (x above : RunNode R) (store : List (RunNode R))
      → x.children ≡ []
      → p < length store
      → Ordered (kids_of store) (length store)
      → bare_at store p ≡ some above
      → IsBelow above (bare x)
      → IsPlaced store
      → IsPlaced (add_node p x store)
  add_node-IsPlaced p x above store e h ordered at below placed i =
      let store' = add_node p x store in
      let old =
        All-both (λ c. IsEdge store i c) (λ c. (i < c) × (c < length store))
          (λ c. IsEdge store' i c) (kids_of store i)
          (λ c (a, b, f, g, k) q. (
            a,
            b,
            bare_at-old p i x store (omega (arith, q)) ∙ f,
            bare_at-old p c x store (q.1) ∙ g,
            k,
          ))
          (placed i) (ordered i) in
      rw (kids_of-add_node p i x store e h) (elim (Bool-cases (eqb i p)) [
        | inr other ↦ rw other old
        | inl same ↦
            let here : i ≡ p = ground (arith, same) in
            rw same (
              All-append_last (λ c. IsEdge store' i c) (kids_of store i) (length store) old
                (
                  above,
                  bare x,
                  bare_at-old p i x store (omega (arith, here, h)) ∙ ap (bare_at store) here ∙ at,
                  bare_at-new p x store,
                  below,
                ))
      ])
