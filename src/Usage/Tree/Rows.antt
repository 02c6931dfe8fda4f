-- ===== src/Usage/Tree/Rows.antt =====
-- What the loop of assembleRunTree keeps: the forest is a tree, and has the calls of the rows.
use mathlib.Core.Path.{subst}
use majordomo_gateway.Base.{
  ℕ, ◌+◌, ◌≤◌, ◌≡◌, refl, sym, ap, ◌∙◌, ltb, some, List, [], ◌∷◌, ◌++◌, arith, All, Str, Float,
  length, map, append_assoc, append_nil, if◌then◌else◌,
}
use majordomo_gateway.Usage.Tree.{RunLeafRow, Ref, Forest, add_node, leaf_of, add_rows}
use majordomo_gateway.Usage.Tree.Paths.{capped_path}
use majordomo_gateway.Usage.Tree.Places.{bare, IsBelow, call_below}
use majordomo_gateway.Usage.Tree.Build.{calls_of, calls_of-add_node}
use majordomo_gateway.Usage.Tree.Ensure.{IsForest, hang-IsForest, ensure_path-Ensured}

module _ (F : Float) (ids : Str → Str → Str) (trace_id : Str) where
  open F use {R}

  -- The calls of the rows, in their order, each with its path cut off behind the 64th step.
  abbrev pub row_calls : List (RunLeafRow R) → List (Str × Str)
  row_calls rows = map (λ row. (row.id, capped_path row.span_path)) rows

  leaf-calls :
      (row : RunLeafRow R) (r : Ref)
      → r.path ≡ capped_path row.span_path
      → calls_of (leaf_of F ids row r ∷ []) ≡ row_calls (row ∷ [])
  unfolding leaf_of calls_of
  leaf-calls row r e = ap (λ p. (row.id, p) ∷ []) e

  pub add_rows-IsForest :
      (root : Ref) (rows : List (RunLeafRow R)) (f : Forest R) (n t : ℕ)
      → IsForest F ids trace_id f n
      → root.address ≡ 0
      → root.path ≡ []
      → (g : Forest R) × (t' : ℕ) × (add_rows F ids trace_id root rows f t ≡ some (g, t'))
        × IsForest F ids trace_id g (n + length rows)
        × (calls_of g.store ≡ calls_of f.store ++ row_calls rows)
        × (t ≤ t')
        × All (λ row. row.responded_at ≤ t') rows
  unfolding add_rows leaf_of
  add_rows-IsForest root [] f n t i h k =
      let same : n ≡ n + 0 = omega arith in
      (
        f,
        t,
        refl,
        subst (IsForest F ids trace_id f) same i,
        sym (append_nil (calls_of f.store)),
        omega arith,
        tt,
      )
  add_rows-IsForest root (row ∷ rows) f n t i h k =
      let (r, g, made, kept, there, named, (above, at, path, inner), calls) =
        ensure_path-Ensured F ids trace_id root row.span_path f n i h k in
      let leaf = leaf_of F ids row r in
      let g' : Forest R = record g { store = add_node r.address leaf g.store } in
      let t' : ℕ = if ltb t row.responded_at then row.responded_at else t in
      let below : IsBelow above (bare leaf) = call_below _ inner refl (named ∙ sym path) in
      let i' = hang-IsForest F ids trace_id r.address leaf above g n refl there at below kept in
      let (z, last, built, forest, all, later, times) =
        add_rows-IsForest root rows g' (n + 1) t' i' h k in
      rw (made, add_rows)
        (
          z,
          last,
          built,
          subst (IsForest F ids trace_id z) (omega arith) forest,
          all
              ∙ ap (λ l. l ++ row_calls rows)
                  (calls_of-add_node r.address leaf g.store
                    ∙ ap (λ l. l ++ calls_of (leaf ∷ [])) calls
                    ∙ ap (λ l. calls_of f.store ++ l) (leaf-calls row r named))
              ∙ append_assoc (calls_of f.store) (row_calls (row ∷ [])) (row_calls rows),
          ground (arith, later),
          (ground (arith, later), times),
        )
