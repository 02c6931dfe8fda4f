-- ===== src/Usage/Tree/Laws.antt =====
-- What assembleRunTree and GetRunTree build out of the rows.
use mathlib.Core.Path.{subst}
use majordomo_gateway.Base.{
  ℕ, zero, suc, ◌≤◌, ◌<◌, ◌≡◌, refl, sym, ◌∙◌, Bool, true, false, ltb, Option, some, List, ◌∷◌,
  arith, All, inl, inr, Bool-cases, Str, Float, length, length-take-le, take, int_mod, [],
}
use majordomo_gateway.Proxy.Spans.{split_path}
use majordomo_gateway.Usage.Tree.{
  RunLeafRow, RunTree, interior, roll_up_run_node, root_ref, start_forest, assemble_run_tree,
  get_run_tree, assembled, assembled_or_crashed,
}
use majordomo_gateway.Usage.Tree.Growth.{total, at_address}
use majordomo_gateway.Usage.Tree.Paths.{take_all}
use majordomo_gateway.Usage.Tree.Build.{kids_of, own_of, calls_of, roll_up_run_node_counts}
use majordomo_gateway.Usage.Tree.Places.{bare_at, IsAt, IsPlaced}
use majordomo_gateway.Usage.Tree.Ensure.{IsForest}
use majordomo_gateway.Usage.Tree.Rows.{row_calls, add_rows-IsForest}

module _ (F : Float) (ids : Str → Str → Str) (trace_id : Str) where
  open F use {R}

  start_ordered :
      (first : RunLeafRow R) (i : ℕ)
      → All (λ c. (i < c) × (c < 1)) (kids_of (start_forest F ids trace_id first).store i)
  unfolding start_forest interior kids_of
  start_ordered first zero = tt
  start_ordered first (suc i) = tt

  start-IsAt : (first : RunLeafRow R) → IsAt (start_forest F ids trace_id first).store 0 []
  unfolding start_forest root_ref interior bare_at
  start-IsAt first = (_, refl, refl, refl)

  start-IsPlaced : (first : RunLeafRow R) → IsPlaced (start_forest F ids trace_id first).store
  unfolding start_forest interior kids_of
  start-IsPlaced first zero = tt
  start-IsPlaced first (suc i) = tt

  start-IsForest :
      (first : RunLeafRow R) → IsForest F ids trace_id (start_forest F ids trace_id first) 0
  unfolding start_forest root_ref interior kids_of own_of total split_path
  start-IsForest first = record {
    tree = record {
      rooted = omega arith;
      ordered = start_ordered first;
      once = λ q h. ground arith;
      counted = refl;
    };
    top = start-IsAt first;
    placed = start-IsPlaced first;
    refs = ((omega arith, refl, omega arith, start-IsAt first), tt);
  }

  -- What holds of the tree of some rows: every node is reached from the root, whose path is empty, and
  -- once; a child is a call with the path of the node above it, or a step of which the name is what its
  -- path has more; the leaves are the rows, and the root counts them; it ends with the last response.
  pub record IsRunTree (rows : List (RunLeafRow R)) (t : RunTree R) : Type 0 where
    pub once :
        (q : ℕ) → q < length t.store → total (at_address q) (kids_of t.store) (length t.store) 0 ≡ 1
    pub top : IsAt t.store 0 []
    pub placed : IsPlaced t.store
    pub calls : calls_of t.store ≡ row_calls F ids trace_id rows
    pub request_count : t.request_count ≡ length rows
    pub root : roll_up_run_node F ids (length t.store) t.store 0 ≡ some (t.root)
    pub ended : All (λ row. row.responded_at ≤ t.ended_at) rows

  assemble_run_tree-IsRunTree :
      (first : RunLeafRow R) (rest : List (RunLeafRow R)) (truncated : Bool)
      → length (first ∷ rest) < int_mod
      → (t : RunTree R) × (assemble_run_tree F ids trace_id (first ∷ rest) truncated ≡ some t)
        × IsRunTree (first ∷ rest) t
        × (t.truncated ≡ truncated)
  unfolding assemble_run_tree root_ref calls_of start_forest interior
  assemble_run_tree-IsRunTree first rest truncated h =
      let (f, ended, built, forest, calls, _, times) =
        add_rows-IsForest F ids trace_id (root_ref F ids trace_id) (first ∷ rest)
          (start_forest F ids trace_id first) 0 first.responded_at (start-IsForest first) refl
          refl in
      let (root, rolled, count) =
        roll_up_run_node_counts F ids (length f.store) 0 f.store forest.tree.ordered
          forest.tree.rooted (omega arith) (omega (arith, forest.tree.counted)) in
      let t : RunTree R = record {
        trace_id = trace_id;
        root = root;
        store = f.store;
        total_cost = root.total_cost;
        request_count = root.request_count;
        started_at = first.requested_at;
        ended_at = ended;
        truncated = truncated;
      } in
      (
        t,
        rw (built, rolled),
        record {
          once = forest.tree.once;
          top = forest.top;
          placed = forest.placed;
          calls = calls;
          request_count = count ∙ forest.tree.counted ∙ omega arith;
          root = rolled;
          ended = times;
        },
        refl,
      )

  many_rows :
      (fetch : Str → ℕ → Option (List (RunLeafRow R))) (first : RunLeafRow R)
      (rest : List (RunLeafRow R))
      → fetch trace_id 5001 ≡ some (first ∷ rest)
      → ltb 5000 (length (first ∷ rest)) ≡ true
      → get_run_tree F ids fetch trace_id
        ≡ assembled_or_crashed F ids
            (assemble_run_tree F ids trace_id (first ∷ take 4999 rest) true)
  unfolding get_run_tree
  many_rows fetch first rest e b = rw (e, b, get_run_tree)

  few_rows :
      (fetch : Str → ℕ → Option (List (RunLeafRow R))) (first : RunLeafRow R)
      (rest : List (RunLeafRow R))
      → fetch trace_id 5001 ≡ some (first ∷ rest)
      → ltb 5000 (length (first ∷ rest)) ≡ false
      → get_run_tree F ids fetch trace_id
        ≡ assembled_or_crashed F ids (assemble_run_tree F ids trace_id (first ∷ rest) false)
  unfolding get_run_tree
  few_rows fetch first rest e b = rw (e, b, get_run_tree)

  assembled_of :
      (o : Option (RunTree R)) (t : RunTree R)
      → o ≡ some t
      → assembled_or_crashed F ids o ≡ assembled t
  unfolding assembled_or_crashed
  assembled_of o t e = rw e

  -- For a run that has calls, GetRunTree gives, without a panic, a tree of the first 5000 of them:
  -- every node is reached from the root, whose path is empty, exactly once; the leaves are these calls in
  -- their order, each with the first 64 steps of its path; a leaf hangs below a step or the root with the
  -- same path, and a step below the one, or the root, from which its path goes on by its name; the root
  -- counts the calls, and the tree ends no earlier than any of them. It is marked as truncated exactly
  -- where there are more than 5000.
  pub get_run_tree-IsRunTree :
      (fetch : Str → ℕ → Option (List (RunLeafRow R))) (first : RunLeafRow R)
      (rest : List (RunLeafRow R))
      → fetch trace_id 5001 ≡ some (first ∷ rest)
      → (t : RunTree R) × (get_run_tree F ids fetch trace_id ≡ assembled t)
        × IsRunTree (take 5000 (first ∷ rest)) t
        × (t.truncated ≡ ltb 5000 (length (first ∷ rest)))
  get_run_tree-IsRunTree fetch first rest e = elim (Bool-cases (ltb 5000 (length (first ∷ rest)))) [
    | inl b ↦
        let bound = length-take-le 4999 rest in
        let (t, made, is, truncated) =
          assemble_run_tree-IsRunTree first (take 4999 rest) true (omega (arith, bound)) in
        (t, many_rows fetch first rest e b ∙ assembled_of _ t made, is, truncated ∙ sym b)
    | inr b ↦
        let (t, made, is, truncated) =
          assemble_run_tree-IsRunTree first rest false (ground arith) in
        (
          t,
          few_rows fetch first rest e b ∙ assembled_of _ t made,
          subst (λ l. IsRunTree l t) (sym (take_all 5000 (first ∷ rest) (ground arith))) is,
          truncated ∙ sym b,
        )
  ]
