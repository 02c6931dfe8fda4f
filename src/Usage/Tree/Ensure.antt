-- ===== src/Usage/Tree/Ensure.antt =====
-- What ensurePath keeps: the forest is a tree whose nodes stand where their paths say.
use mathlib.Core.Path.{subst}
use majordomo_gateway.Base.{
  ℕ, ◌+◌, ◌<◌, ◌≡◌, refl, sym, ap, ◌∙◌, Option, some, List, [], ◌∷◌, ◌++◌, arith, All, inl, inr,
  Option-cases, Str, lookup, insert, Float, length, take, map, append_nil, none,
}
use majordomo_gateway.Proxy.Spans.{split_path, canonical_path, ancestor_paths}
use majordomo_gateway.Usage.Tree.{
  RunNode, Ref, Forest, step, last_segment, add_node, interior, ensure_prefixes, ensure_path,
}
use majordomo_gateway.Usage.Tree.Refs.{
  last_segment-some, last_segment-append, AllRefs, AllRefs-add_node, AllRefs-insert, AllRefs-lookup,
}
use majordomo_gateway.Usage.Tree.Paths.{
  last_or, IsNodePath, IsGrowing, prefixes-All, prefixes-IsGrowing, capped_path,
  last_prefix-capped_path, capped_path_short,
}
use majordomo_gateway.Usage.Tree.Places.{
  bare, bare_at, IsBelow, step_below, IsPlaced, IsAt, IsAt-add_node, IsAt-new, add_node-IsPlaced,
}
use majordomo_gateway.Usage.Tree.Build.{
  calls_of, IsStore, length-add_node, calls_of-add_node, add_node-IsStore,
}

module _ (F : Float) (ids : Str → Str → Str) (trace_id : Str) where
  open F use {R}

  -- The forest in the middle of the work, with `n` calls in it.
  pub record IsForest (f : Forest R) (n : ℕ) : Type 0 where
    pub tree : IsStore f.store n
    pub top : IsAt f.store 0 []
    pub placed : IsPlaced f.store
    pub refs : AllRefs f.store f.nodes

  pub hang-IsForest :
      (p : ℕ) (x above : RunNode R) (f : Forest R) (n : ℕ)
      → x.children ≡ []
      → p < length f.store
      → bare_at f.store p ≡ some above
      → IsBelow above (bare x)
      → IsForest f n
      → IsForest (record f { store = add_node p x f.store }) (n + x.request_count)
  hang-IsForest p x above f n e h at below i = record {
    tree = add_node-IsStore p x f.store n e h i.tree;
    top = IsAt-add_node p 0 [] x f.store i.tree.rooted i.top;
    placed = add_node-IsPlaced p x above f.store e h i.tree.ordered at below i.placed;
    refs = AllRefs-add_node p x f.store f.nodes i.refs;
  }

  -- A step node is made below the node that its path goes on from.
  step-IsForest :
      (p : ℕ) (name parent_id q : Str) (above : RunNode R) (f : Forest R) (n : ℕ)
      → IsNodePath q
      → p < length f.store
      → bare_at f.store p ≡ some above
      → above.call ≡ none
      → split_path q ≡ split_path above.path ++ name ∷ []
      → IsForest f n
      → IsForest
          (record {
            store =
                add_node p (interior F ids step (ids trace_id q) (some parent_id) name q) f.store;
            nodes =
                insert q
                  (record { address = length f.store; span_id = ids trace_id q; path = q })
                  f.nodes;
          })
          n
  unfolding interior
  step-IsForest p name parent_id q above f n (_, short, _) h at inner longer i =
      let x = interior F ids step (ids trace_id q) (some parent_id) name q in
      let j = hang-IsForest p x above f n refl h at (step_below inner refl longer) i in
      let same : n + 0 ≡ n = omega arith in
      record {
        tree = subst (IsStore (add_node p x f.store)) same j.tree;
        top = j.top;
        placed = j.placed;
        refs =
            AllRefs-insert (add_node p x f.store) q
              (record { address = length f.store; span_id = ids trace_id q; path = q }) f.nodes
              (omega (arith, length-add_node p x f.store), refl, short, IsAt-new p x f.store refl)
              j.refs;
      }

  calls_of-interior :
      (p : ℕ) (name parent_id q : Str) (store : List (RunNode R))
      → calls_of (add_node p (interior F ids step (ids trace_id q) (some parent_id) name q) store)
        ≡ calls_of store
  unfolding interior calls_of
  calls_of-interior p name parent_id q store =
      calls_of-add_node p (interior F ids step (ids trace_id q) (some parent_id) name q) store
      ∙ append_nil (calls_of store)

  abbrev pub Ensured : Forest R → ℕ → Str → Option (Ref × Forest R) → Type 0
  Ensured f n path result =
      (r : Ref) × (g : Forest R) × (result ≡ some (r, g))
      × IsForest g n
      × (r.address < length g.store)
      × (r.path ≡ path)
      × IsAt g.store r.address path
      × (calls_of g.store ≡ calls_of f.store)

  ensure_prefixes-Ensured :
      (parent : Ref) (prefixes : List Str) (f : Forest R) (n : ℕ)
      → All IsNodePath prefixes
      → IsGrowing (split_path parent.path) (map split_path prefixes)
      → IsForest f n
      → parent.address < length f.store
      → IsAt f.store parent.address parent.path
      → Ensured f n
          (last_or parent.path prefixes)
          (ensure_prefixes F ids trace_id parent prefixes f)
  unfolding ensure_prefixes interior
  ensure_prefixes-Ensured parent [] f n a w i h at = (parent, f, refl, i, h, refl, at, refl)
  ensure_prefixes-Ensured parent (q ∷ prefixes) f n ((nonempty, short, canonical), a) (s, longer, w)
        i h (above, at, named, inner) =
      elim (Option-cases (lookup q f.nodes)) [
        | inr (existing, e) ↦
            let (there, named, _, found) = AllRefs-lookup f.store q existing f.nodes i.refs e in
            rw (e, ensure_prefixes)
              (subst
                (λ p.
                  Ensured f n (last_or p prefixes)
                    (ensure_prefixes F ids trace_id existing prefixes f))
                named
                (ensure_prefixes-Ensured existing prefixes f n a
                  (subst (λ p. IsGrowing (split_path p) (map split_path prefixes)) (sym named) w) i
                  there (subst (IsAt f.store existing.address) (sym named) found)))
        | inl e ↦
            let (name, last) = last_segment-some (split_path q) nonempty in
            let same : s ≡ name =
              last_segment-append (split_path parent.path) s name
                (subst (λ l. last_segment l ≡ some name) longer last) in
            let r : Ref = record { address = length f.store; span_id = ids trace_id q; path = q } in
            let x = interior F ids step (ids trace_id q) (some (parent.span_id)) name q in
            let f' : Forest R = record {
              store = add_node parent.address x f.store;
              nodes = insert q r f.nodes;
            } in
            let there : r.address < length f'.store =
              omega (arith, length-add_node parent.address x f.store) in
            let goes_on : split_path q ≡ split_path above.path ++ name ∷ [] =
              longer
              ∙ ap (λ p. split_path p ++ s ∷ []) (sym named)
              ∙ ap (λ t. split_path above.path ++ t ∷ []) same in
            let (s, g, made, kept, inside, named, found, calls) =
              ensure_prefixes-Ensured r prefixes f' n a w
                (step-IsForest parent.address name parent.span_id q above f n
                  (nonempty, short, canonical) h at inner goes_on i)
                there (IsAt-new parent.address x f.store refl) in
            rw (e, last, ensure_prefixes)
              (
                s,
                g,
                made,
                kept,
                inside,
                named,
                found,
                calls ∙ calls_of-interior parent.address name parent.span_id q f.store,
              )
      ]

  pub ensure_path-Ensured :
      (root : Ref) (path : Str) (f : Forest R) (n : ℕ)
      → IsForest f n
      → root.address ≡ 0
      → root.path ≡ []
      → Ensured f n (capped_path path) (ensure_path F ids trace_id root (canonical_path path) f)
  unfolding ensure_path split_path
  ensure_path-Ensured root path f n i h k =
      let prefixes = take 64 (ancestor_paths (canonical_path path)) in
      elim (Option-cases (lookup (canonical_path path) f.nodes)) [
        | inr (r, e) ↦
            let (there, named, short, found) =
              AllRefs-lookup f.store (canonical_path path) r f.nodes i.refs e in
            let whole = capped_path_short path short in
            rw (e, ensure_path)
              (
                r,
                f,
                refl,
                i,
                there,
                named ∙ sym whole,
                subst (IsAt f.store r.address) (sym whole) found,
                refl,
              )
        | inl e ↦
            rw (e, ensure_path)
              (subst (λ p. Ensured f n p (ensure_prefixes F ids trace_id root prefixes f))
                (ap (λ d. last_or d prefixes) k ∙ last_prefix-capped_path path)
                (ensure_prefixes-Ensured root prefixes f n (prefixes-All (canonical_path path))
                  (subst (λ p. IsGrowing (split_path p) (map split_path prefixes)) (sym k)
                    (prefixes-IsGrowing (canonical_path path)))
                  i (omega (arith, h, i.tree.rooted))
                  (subst (λ a. IsAt f.store a root.path) (sym h)
                    (subst (IsAt f.store 0) (sym k) i.top))))
      ]
