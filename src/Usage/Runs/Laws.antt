-- ===== src/Usage/Runs/Laws.antt =====
-- The list of runs and the tree of a run agree.
use mathlib.Core.Path.{subst}
use mathlib.Core.List.Memᴰ.{head, tail}
use majordomo_gateway.Base.{
  ℕ, zero, suc, ◌%◌, ◌≤◌, ◌≡◌, refl, sym, ap, ◌∙◌, Bool, true, false, Bool-cases, ◌&&◌, inl, inr,
  Option, none, some, List, [], ◌∷◌, map, arith, Memᴰ, Str, ◌==◌, eq_iff, filter, Float, All,
  length, take, drop, is_empty, int_mod, ltb, length-sort_by, is_some,
}
use majordomo_gateway.Logs.Types.{RequestLog}
use majordomo_gateway.Usage.Aggregate.{sum_int}
use majordomo_gateway.Usage.Groups.{report-line}
use majordomo_gateway.Usage.Filter.{UsageFilter, in_window, equals_or_null_key}
use majordomo_gateway.Usage.Reports.{Totals, Functions, totals_of}
use majordomo_gateway.Usage.Reports.Pages.{length-sum_int}
use majordomo_gateway.Usage.Tree.{RunLeafRow, RunTree, get_run_tree, assembled}
use majordomo_gateway.Usage.Tree.Paths.{take_all}
use majordomo_gateway.Usage.Tree.Laws.{get_run_tree-IsRunTree}
use majordomo_gateway.Base.{bool_clash}
use majordomo_gateway.Usage.Runs.{
  RunListItem, coalesce, first_label, first_time, last_time, run_rows, leaf_row, of_trace,
  oldest_first, fetch_run_rows, all_runs, list_runs,
}

few_not_many : (n : ℕ) → n ≤ 5000 → ltb 5000 n ≡ false
few_not_many n h = ground arith

small : (n : ℕ) → n ≤ 5000 → n ≡ n % int_mod
small n h = omega arith

length-map : {A B : Type 0} (f : A → B) (xs : List A) → length (map f xs) ≡ length xs
length-map f [] = refl
length-map f (x ∷ xs) = ap suc (length-map f xs)

nonempty :
    {A B : Type 0} (xs : List A) (ys : List B)
    → length xs ≡ length ys
    → is_empty ys ≡ false
    → is_empty xs ≡ false
nonempty [] [] e h = h
nonempty [] (y ∷ ys) e h = absurd (omega arith)
nonempty (x ∷ xs) ys e h = refl

module _ {A : Type 0} where
  Memᴰ-take : (n : ℕ) {a : A} (xs : List A) → Memᴰ a (take n xs) → Memᴰ a xs
  Memᴰ-take zero xs m = elim m [ ]
  Memᴰ-take (suc n) [] m = elim m [ ]
  Memᴰ-take (suc n) (x ∷ xs) (head e) = head e
  Memᴰ-take (suc n) (x ∷ xs) (tail m) = tail (Memᴰ-take n xs m)

  Memᴰ-drop : (n : ℕ) {a : A} (xs : List A) → Memᴰ a (drop n xs) → Memᴰ a xs
  Memᴰ-drop zero xs m = m
  Memᴰ-drop (suc n) [] m = m
  Memᴰ-drop (suc n) (x ∷ xs) m = tail (Memᴰ-drop n xs m)

abbrev trace_is : Str → Option Str → Bool
trace_is k t = elim t [ none ↦ false | some x ↦ x == k ]

trace_test :
    (a : Option Str) (k : Str) (t : Option Str) (w : Bool) (id : Option Str)
    → a ≡ none
    → (trace_is k t ≡ true → w ≡ true)
    → ((is_some t && (w && equals_or_null_key a id)) && (coalesce t [] == k)) ≡ trace_is k t
unfolding coalesce equals_or_null_key
trace_test a k none w id e h = refl
trace_test a k (some x) true id e h = rw e
trace_test a k (some x) false id e h = elim (Bool-cases (x == k)) [
  | inl b ↦ absurd (bool_clash (h b))
  | inr b ↦ sym b
]

module _ {R : Type 0} where
  -- The window of a filter without a key takes in all of a run.
  abbrev pub Covers : UsageFilter → Str → List (RequestLog R) → Type 0
  Covers f trace_id rows =
      (f.api_key_id ≡ none)
      × All (λ row. of_trace trace_id row ≡ true → in_window f row ≡ true) rows

  fetch_all :
      (k : Str) (rows : List (RequestLog R))
      → length (oldest_first (filter (of_trace k) rows)) ≤ 5001
      → fetch_run_rows rows k 5001 ≡ some (map leaf_row (oldest_first (filter (of_trace k) rows)))
  unfolding fetch_run_rows
  fetch_all k rows h =
      ap (λ l. some (map leaf_row l)) (take_all 5001 (oldest_first (filter (of_trace k) rows)) h)

  items_of : List (RunListItem R) → Option (List (RunListItem R) × ℕ) → List (RunListItem R)
  items_of d none = d
  items_of d (some (items, total)) = items

  filter-filter :
      (p q r : RequestLog R → Bool) (rows : List (RequestLog R))
      → All (λ row. (q row && p row) ≡ r row) rows
      → filter p (filter q rows) ≡ filter r rows
  unfolding filter
  filter-filter p q r [] a = refl
  filter-filter p q r (row ∷ rows) (e, a) = elim (Bool-cases (q row)) [
    | inl h ↦
        let same : p row ≡ r row = rw h at e in
        rw h (elim (Bool-cases (r row)) [
          | inl k ↦ rw (filter, same, k) (ap (λ l. row ∷ l) (filter-filter p q r rows a))
          | inr k ↦ rw (filter, same, k) (filter-filter p q r rows a)
        ])
    | inr h ↦ let out : false ≡ r row = rw h at e in rw (h, ← out) (filter-filter p q r rows a)
  ]

  All-implies :
      (P Q : RequestLog R → Type 0) (rows : List (RequestLog R))
      → ((row : RequestLog R) → P row → Q row)
      → All P rows
      → All Q rows
  All-implies P Q [] f a = tt
  All-implies P Q (row ∷ rows) f (p, a) = (f row p, All-implies P Q rows f a)

  run_of_trace :
      (f : UsageFilter) (k : Str) (rows : List (RequestLog R))
      → Covers f k rows
      → filter (λ row. coalesce row.trace_id [] == k) (run_rows f rows) ≡ filter (of_trace k) rows
  unfolding run_rows
  run_of_trace f k rows (e, a) =
      filter-filter (λ row. coalesce row.trace_id [] == k)
        (λ row.
          is_some row.trace_id
          && (in_window f row && equals_or_null_key f.api_key_id row.majordomo_api_key_id))
        (of_trace k) rows
        (All-implies (λ row. of_trace k row ≡ true → in_window f row ≡ true)
          (λ row.
            ((is_some row.trace_id
                && (in_window f row && equals_or_null_key f.api_key_id row.majordomo_api_key_id))
              && (coalesce row.trace_id [] == k))
            ≡ of_trace k row)
          rows
          (λ row h.
            trace_test f.api_key_id k row.trace_id (in_window f row) row.majordomo_api_key_id e h)
          a)

module _ (F : Float) (db : Functions F.R) (ids : Str → Str → Str) where
  open F use {R}

  tree_of_list :
      (fetch : Str → ℕ → Option (List (RunLeafRow R))) (k : Str) (calls : List (RunLeafRow R))
      → fetch k 5001 ≡ some calls
      → is_empty calls ≡ false
      → length calls ≤ 5000
      → (t : RunTree R) × (get_run_tree F ids fetch k ≡ assembled t)
        × (t.request_count ≡ length calls)
        × (t.truncated ≡ false)
  tree_of_list fetch k [] e h few = cc
  tree_of_list fetch k (first ∷ rest) e h few =
      let (t, made, is, truncated) = get_run_tree-IsRunTree F ids k fetch first rest e in
      (
        t,
        made,
        is.request_count ∙ ap length (take_all 5000 (first ∷ rest) few),
        truncated ∙ few_not_many (length (first ∷ rest)) few,
      )

  tree_of_rows :
      (k : Str) (rows : List (RequestLog R))
      → is_empty (filter (of_trace k) rows) ≡ false
      → length (filter (of_trace k) rows) ≤ 5000
      → (t : RunTree R) × (get_run_tree F ids (fetch_run_rows rows) k ≡ assembled t)
        × (t.request_count ≡ length (filter (of_trace k) rows))
        × (t.truncated ≡ false)
  tree_of_rows k rows some_row few =
      let mine = filter (of_trace k) rows in
      let sorted = oldest_first mine in
      let same : length sorted ≡ length mine =
        length-sort_by (λ a b. ltb a.requested_at b.requested_at) mine in
      let count : length (map leaf_row sorted) ≡ length mine = length-map leaf_row sorted ∙ same in
      let (t, made, number, whole) =
        tree_of_list (fetch_run_rows rows) k (map leaf_row sorted)
          (fetch_all k rows (omega (arith, same)))
          (nonempty (map leaf_row sorted) mine count some_row) (omega (arith, count)) in
      (t, made, number ∙ count, whole)

  -- A run in the list has as many requests as its tree counts, where the window of the list takes in all
  -- of the run, the list is for all keys, and the run has at most 5000 requests; its tree is whole then.
  pub list_runs-get_run_tree :
      (f : UsageFilter) (limit offset total : ℕ) (items : List (RunListItem R))
      (run : RunListItem R) (rows : List (RequestLog R))
      → list_runs F db f limit offset (some rows) (some rows) ≡ some (items, total)
      → Memᴰ run items
      → Covers f run.trace_id rows
      → length (filter (of_trace run.trace_id) rows) ≤ 5000
      → (t : RunTree R) × (get_run_tree F ids (fetch_run_rows rows) run.trace_id ≡ assembled t)
        × (t.request_count ≡ run.totals.request_count)
        × (t.truncated ≡ false)
  unfolding list_runs totals_of items_of
  list_runs-get_run_tree f limit offset total items run rows h m c few =
      let inside : Memᴰ run (all_runs F db f rows) = Memᴰ-drop offset (all_runs F db f rows) (
        Memᴰ-take limit (drop offset (all_runs F db f rows))
          (subst (Memᴰ run) (sym (ap (items_of []) h)) m)) in
      let (k, e, some_row) =
        report-line ◌==◌ (λ row. coalesce row.trace_id [])
          (λ group. (first_label group, totals_of F db group, first_time group, last_time group))
          (λ k (t : Str × Totals R × ℕ × ℕ). record {
            trace_id = k;
            label = t.0;
            totals = t.1;
            started_at = t.2;
            ended_at = t.3;
          })
          (λ a b. ltb b.ended_at a.ended_at) (run_rows f rows) run eq_iff inside in
      let named : k ≡ run.trace_id = ap (λ x. x.trace_id) e in
      let group = run_of_trace f run.trace_id rows c in
      let here : filter (λ row. coalesce row.trace_id [] == k) (run_rows f rows)
          ≡ filter (of_trace run.trace_id) rows =
        ap (λ x. filter (λ row. coalesce row.trace_id [] == x) (run_rows f rows)) named ∙ group in
      let (t, made, number, whole) =
        tree_of_rows run.trace_id rows (subst (λ l. is_empty l ≡ false) here some_row) few in
      (
        t,
        made,
        number
            ∙ small (length (filter (of_trace run.trace_id) rows)) few
            ∙ sym (length-sum_int (filter (of_trace run.trace_id) rows))
            ∙ ap (sum_int (λ row. 1)) (sym here)
            ∙ ap (λ x. x.totals.request_count) e,
        whole,
      )
