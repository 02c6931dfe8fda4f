-- ===== src/Usage/Reports/Pages.antt =====
-- The list of requests: its pages, its count, and its agreement with the error summary; and the usage
-- of the API keys.
use mathlib.Core.Path.{fun_ext}
use mathlib.Core.List.{Perm, Permᴰ}
use majordomo_gateway.Base.{
  ℕ, zero, suc, ◌+◌, ◌*◌, ◌≤◌, ◌<◌, ◌≡◌, refl, sym, ap, ◌∙◌, Bool, true, false, Bool-cases, ◌&&◌,
  inl, inr, none, some, List, [], ◌∷◌, ◌++◌, map, arith, if◌then◌else◌, Str, lit, ◌==◌, Dict,
  lookup, filter, Float, str_lt, take, drop, length, leb, add_int, All, ltb, int_mod, ◌%◌,
  length-sort_by, sort_by, Sorted, sort_by-perm,
}
use majordomo_gateway.Logs.Types.{RequestLog}
use majordomo_gateway.Usage.Tree.Paths.{take_all}
use majordomo_gateway.Usage.Aggregate.{sum_int, page, sum_int-map, sum_int-report, report}
use majordomo_gateway.Usage.Filter.{
  UsageFilter, selects, selected, selects_any_key, in_status_class, passes_exclude_runs,
  equals_or_null_key,
}
use majordomo_gateway.Usage.Reports.Newest.{newer, Apart, sort_by-Permᴰ, sort_by-newest}
use majordomo_gateway.Usage.Reports.Laws.{Column, measure, of_row, measure-totals_of}
use majordomo_gateway.Usage.Reports.{
  DailyErrorRate, ErrorSummary, Functions, same_pair, dearer, totals_of, get_usage_summary,
  join_api_keys, get_api_key_breakdown, count_errors, get_error_summary, error_rate, newest_first,
  listed, list_usage_requests,
}

below_mod : (n : ℕ) → n < int_mod → n ≡ add_int 0 n
unfolding add_int
below_mod n h = omega arith

module _ {A : Type 0} where
  take_nil : (n : ℕ) → take {A = A} n [] ≡ []
  take_nil zero = refl
  take_nil (suc n) = refl

  take-drop : (n m : ℕ) (xs : List A) → take n xs ++ take m (drop n xs) ≡ take (n + m) xs
  take-drop zero m xs = let e : m ≡ 0 + m = omega arith in ap (λ k. take k xs) e
  take-drop (suc n) m [] = take_nil m ∙ sym (take_nil (suc n + m))
  take-drop (suc n) m (x ∷ xs) =
      let e : suc (n + m) ≡ suc n + m = omega arith in
      ap (λ l. x ∷ l) (take-drop n m xs) ∙ ap (λ k. take k (x ∷ xs)) e

  sum_int_bound : (column : A → ℕ) (xs : List A) → sum_int column xs < int_mod
  unfolding sum_int add_int
  sum_int_bound column [] = omega arith
  sum_int_bound column (x ∷ xs) = omega arith

  pub length-sum_int : (xs : List A) → sum_int (λ x. 1) xs ≡ length xs % int_mod
  unfolding sum_int add_int
  length-sum_int [] = refl
  length-sum_int (x ∷ xs) = omega (arith, length-sum_int xs)

module _ (F : Float) (db : Functions F.R) where
  open F use {R}

  -- The first `count` pages of a list, one behind the other. Each is an execution of its own, and meets
  -- the rows in an order of its own.
  abbrev pub pages :
      UsageFilter
      → ℕ
      → (ℕ → List (RequestLog R) → List (RequestLog R))
      → ℕ
      → List (RequestLog R)
      → List (RequestLog R)
  pages f limit orders zero rows = []
  pages f limit orders (suc count) rows =
      pages f limit orders count rows
      ++ elim (list_usage_requests F (record db { meets = orders count }) f limit (count * limit)
          (some rows) (some rows)) [ none ↦ [] | some (items, total) ↦ items ]

  pages-take :
      (f : UsageFilter) (limit count : ℕ) (orders : ℕ → List (RequestLog R) → List (RequestLog R))
      (rows : List (RequestLog R))
      → ((i : ℕ) (met : List (RequestLog R)) → Permᴰ met (orders i met))
      → Apart (listed F db f rows)
      → pages f limit orders count rows ≡ take (count * limit) (sort_by newer (listed F db f rows))
  unfolding list_usage_requests listed
  pages-take f limit zero orders rows perm apart =
      let e : 0 ≡ 0 * limit = omega arith in ap (λ k. take k (sort_by newer (listed F db f rows))) e
  pages-take f limit (suc count) orders rows perm apart =
      let all = sort_by newer (listed F db f rows) in
      let e : count * limit + limit ≡ suc count * limit = grind arith in
      ap (λ l. pages f limit orders count rows ++ page limit (count * limit) l)
        (sym (sort_by-Permᴰ (perm count (listed F db f rows)) apart))
      ∙ ap (λ l. l ++ page limit (count * limit) all)
          (pages-take f limit count orders rows perm apart)
      ∙ take-drop (count * limit) limit all
      ∙ ap (λ k. take k all) e

  -- Where nothing is written in between, and no two of the requests that the filter lets through have
  -- the same time, as many pages as these requests take are all of them, each once and none newer than
  -- one in front of it, in whatever order the statement of each page meets the rows; and the total that
  -- is told with any page is their number.
  pub pages_all :
      (f : UsageFilter) (limit count offset : ℕ)
      (orders : ℕ → List (RequestLog R) → List (RequestLog R)) (rows : List (RequestLog R))
      → ((i : ℕ) (met : List (RequestLog R)) → Permᴰ met (orders i met))
      → Apart (listed F db f rows)
      → length (listed F db f rows) ≤ count * limit
      → Perm (pages f limit orders count rows) (listed F db f rows)
        × Sorted (λ a b. ltb b.requested_at a.requested_at) (pages f limit orders count rows)
        × (items : List (RequestLog R)) × (total : ℕ) × (list_usage_requests F db f limit offset
              (some rows)
              (some rows)
            ≡ some (items, total))
        × (total ≡ length (pages f limit orders count rows) % int_mod)
  unfolding list_usage_requests
  pages_all f limit count offset orders rows perm apart h =
      let found = listed F db f rows in
      let whole : pages f limit orders count rows ≡ sort_by newer found =
        pages-take f limit count orders rows perm apart
        ∙ take_all (count * limit) (sort_by newer found) (rw (length-sort_by newer found) h) in
      (
        rw whole (sort_by-perm newer found),
        rw whole (sort_by-newest found),
        page limit offset (newest_first F db found),
        sum_int (λ row. 1) found,
        refl,
        length-sum_int found
            ∙ ap (λ n. n % int_mod) (sym (length-sort_by newer found) ∙ sym (ap length whole)),
      )

  count_if :
      (test : RequestLog R → Bool) (rows : List (RequestLog R))
      → sum_int (λ row. 1) (filter test rows) ≡ sum_int (λ row. if test row then 1 else 0) rows
  unfolding sum_int filter
  count_if test [] = refl
  count_if test (row ∷ rows) = elim (Bool-cases (test row)) [
    | inl e ↦ rw e (ap (add_int 1) (count_if test rows))
    | inr e ↦ rw e (
        count_if test rows
        ∙ below_mod (sum_int (λ row. if test row then 1 else 0) rows)
            (sum_int_bound (λ row. if test row then 1 else 0) rows))
  ]

  and_true : (b : Bool) → (b && true) ≡ b
  and_true true = refl
  and_true false = refl

  failed_only :
      (row : RequestLog R)
      → (in_status_class (lit "error") row && passes_exclude_runs false row)
        ≡ leb 400 row.status_code
  unfolding in_status_class passes_exclude_runs lit ◌==◌
  failed_only row = and_true (leb 400 row.status_code)

  -- The filter of a list of the failed requests.
  abbrev pub errors_of : UsageFilter → UsageFilter
  errors_of f = record f { status_class = lit "error"; exclude_runs = false }

  listed-errors_of :
      (f : UsageFilter) (rows : List (RequestLog R))
      → listed F db (errors_of f) rows ≡ filter (λ row. leb 400 row.status_code) (selected f rows)
  unfolding listed
  listed-errors_of f rows = ap (λ t. filter t (selected f rows)) (fun_ext failed_only)

  -- The error summary agrees with itself, with the usage summary and with the list: over the same rows,
  -- its days add up to its totals, its number of requests is the summary's, and its number of errors is
  -- the total of the list of failed requests.
  pub errors_agree :
      (f : UsageFilter) (rows : List (RequestLog R)) (limit offset : ℕ)
      → (s : ErrorSummary R) × (items : List (RequestLog R)) × (get_error_summary F db f
            (some rows)
            (some rows)
          ≡ some s)
        × (sum_int (λ d. d.request_count) s.daily ≡ s.total_requests)
        × (sum_int (λ d. d.error_count) s.daily ≡ s.error_requests)
        × (s.total_requests ≡ (get_usage_summary F db f rows).request_count)
        × (list_usage_requests F db (errors_of f) limit offset (some rows) (some rows)
            ≡ some (items, s.error_requests))
  unfolding get_error_summary get_usage_summary list_usage_requests
  errors_agree f rows limit offset =
      let line : Str → ℕ × ℕ → DailyErrorRate R = λ k t. record {
        date = k;
        request_count = t.0;
        error_count = t.1;
        error_rate = error_rate F db (t.1) (t.0);
      } in
      let both : List (RequestLog R) → ℕ × ℕ = λ g. (sum_int (λ row. 1) g, count_errors F db g) in
      let total = sum_int (λ row. 1) (selected f rows) in
      let errors = count_errors F db (selected f rows) in
      (
        record {
          total_requests = total;
          error_requests = errors;
          error_rate = error_rate F db errors total;
          daily =
              report ◌==◌ (λ row. db.day_of row.requested_at) both line
                (λ a b. str_lt a.date b.date) (selected f rows);
        },
        page limit offset (newest_first F db (listed F db (errors_of f) rows)),
        refl,
        sum_int-report ◌==◌ (λ row. db.day_of row.requested_at) both line
            (λ a b. str_lt a.date b.date) (λ d. d.request_count) (λ row. 1) (selected f rows)
            (λ k g. refl),
        sum_int-report ◌==◌ (λ row. db.day_of row.requested_at) both line
            (λ a b. str_lt a.date b.date) (λ d. d.error_count)
            (λ row. if leb 400 row.status_code then 1 else 0) (selected f rows) (λ k g. refl),
        refl,
        ap (λ n. some (page limit offset (newest_first F db (listed F db (errors_of f) rows)), n))
            (ap (sum_int (λ row. 1)) (listed-errors_of f rows)
              ∙ count_if (λ row. leb 400 row.status_code) (selected f rows)),
      )

  -- A row with an API key that is known.
  abbrev pub HasKey : Dict Str → RequestLog R → Type 0
  HasKey api_keys row =
      (id : Str) × (name : Str) × (row.majordomo_api_key_id ≡ some id)
      × (lookup id api_keys ≡ some name)

  join_api_keys-rows :
      (api_keys : Dict Str) (test : RequestLog R → Bool) (rows : List (RequestLog R))
      → All (HasKey api_keys) rows
      → map (λ joined. joined.1) (join_api_keys F db api_keys (filter test rows)) ≡ filter test rows
  unfolding join_api_keys filter
  join_api_keys-rows api_keys test [] a = refl
  join_api_keys-rows api_keys test (row ∷ rows) ((id, name, e, k), a) =
      elim (Bool-cases (test row)) [
        | inl t ↦ rw t (simp (e, k) (ap (λ l. row ∷ l) (join_api_keys-rows api_keys test rows a)))
        | inr t ↦ rw t (join_api_keys-rows api_keys test rows a)
      ]

  -- The breakdown by API key leaves the key of the filter aside: where every row has a known key, its
  -- lines add up to the summary for all keys.
  pub api_keys_add_up :
      (api_keys : Dict Str) (f : UsageFilter) (rows : List (RequestLog R)) (c : Column)
      → All (HasKey api_keys) rows
      → sum_int (λ u. measure F db c u.totals) (get_api_key_breakdown F db api_keys f rows)
        ≡ measure F db c (get_usage_summary F db (record f { api_key_id = none }) rows)
  unfolding get_api_key_breakdown get_usage_summary selected selects equals_or_null_key
  api_keys_add_up api_keys f rows c a =
      let joined = join_api_keys F db api_keys (filter (selects_any_key f) rows) in
      sum_int-report same_pair (λ j. j.0) (λ g. totals_of F db (map (λ j. j.1) g))
        (λ k t. record { api_key_id = k.0; api_key_name = k.1; totals = t })
        (λ a b. dearer F db a.totals b.totals) (λ u. measure F db c u.totals)
        (λ j. of_row F db c (j.1)) joined
        (λ k g.
          measure-totals_of F db c (map (λ j. j.1) g) ∙ sum_int-map (of_row F db c) (λ j. j.1) g)
      ∙ sym (sum_int-map (of_row F db c) (λ j. j.1) joined)
      ∙ ap (sum_int (of_row F db c)) (join_api_keys-rows api_keys (selects_any_key f) rows a)
      ∙ sym (measure-totals_of F db c (filter (selects_any_key f) rows))
