-- ===== src/Usage/Runs.antt =====
-- The runs: ListRuns of internal/repositories/usage.go, and the rows of one run, which GetRunTree reads.
pub mod Laws
use majordomo_gateway.Base.{
  ℕ, Bool, true, false, ◌&&◌, Option, none, some, List, [], ◌∷◌, map, if◌then◌else◌, Str, ◌==◌, ltb,
  filter, Float, sort_by, is_some, is_empty, split, ◌>>=◌,
}
use majordomo_gateway.Logs.Types.{RequestLog}
use majordomo_gateway.Usage.Aggregate.{sum_int, report, page}
use majordomo_gateway.Usage.Filter.{UsageFilter, in_window, equals_or_null_key}
use majordomo_gateway.Usage.Reports.{Totals, Functions, totals_of}
use majordomo_gateway.Usage.Tree.{RunLeafRow}

pub record RunListItem (R : Type 0) : Type 0 where
  pub trace_id : Str
  pub label : Str
  pub totals : Totals R
  pub started_at : ℕ
  pub ended_at : ℕ

-- COALESCE(column, other)
unfoldable pub coalesce : Option Str → Str → Str
coalesce none other = other
coalesce (some v) other = v

-- split_part(path, '/', 1)
unfoldable pub first_part : Str → Str
unfolding split
first_part path = elim (split b'/' path) [ [] ↦ [] | ◌∷◌ part parts ↦ part ]

module _ {R : Type 0} where
  -- The label that a row gives to its run.
  unfoldable pub row_label : RequestLog R → Str
  unfolding coalesce first_part
  row_label row =
      if is_empty (coalesce row.span_path [])
      then coalesce row.span_name row.model
      else first_part (coalesce row.span_path [])

  -- ORDER BY requested_at ASC
  abbrev pub oldest_first : List (RequestLog R) → List (RequestLog R)
  oldest_first rows = sort_by (λ a b. ltb a.requested_at b.requested_at) rows

  -- (array_agg(label ORDER BY requested_at ASC))[1]
  unfoldable pub first_label : List (RequestLog R) → Str
  unfolding row_label sort_by
  first_label rows = elim (oldest_first rows) [ [] ↦ [] | ◌∷◌ row rows ↦ row_label row ]

  -- MIN(requested_at) and MAX(responded_at)
  unfoldable pub min_requested : ℕ → List (RequestLog R) → ℕ
  min_requested t [] = t
  min_requested t (row ∷ rows) =
      min_requested (if ltb row.requested_at t then row.requested_at else t) rows

  unfoldable pub max_responded : ℕ → List (RequestLog R) → ℕ
  max_responded t [] = t
  max_responded t (row ∷ rows) =
      max_responded (if ltb t row.responded_at then row.responded_at else t) rows

  unfoldable pub first_time : List (RequestLog R) → ℕ
  unfolding min_requested
  first_time [] = 0
  first_time (row ∷ rows) = min_requested row.requested_at rows

  unfoldable pub last_time : List (RequestLog R) → ℕ
  unfolding max_responded
  last_time rows = max_responded 0 rows

  -- The rows of runs that ListRuns looks at: those of the window and the key, and nothing else of the
  -- filter.
  unfoldable pub run_rows : UsageFilter → List (RequestLog R) → List (RequestLog R)
  unfolding in_window equals_or_null_key
  run_rows f rows =
      filter
        (λ row.
          is_some row.trace_id
          && (in_window f row && equals_or_null_key f.api_key_id row.majordomo_api_key_id))
        rows

  -- One row as GetRunTree selects it.
  unfoldable pub leaf_row : RequestLog R → RunLeafRow R
  unfolding coalesce
  leaf_row row = record {
    id = row.id;
    span_id = row.span_id;
    parent_span_id = row.parent_span_id;
    span_path = coalesce row.span_path [];
    span_name = coalesce row.span_name row.model;
    provider = row.provider;
    model = row.model;
    requested_at = row.requested_at;
    responded_at = row.responded_at;
    response_time_ms = row.response_time_ms;
    status_code = row.status_code;
    total_cost = row.total_cost;
  }

  -- trace_id = $1, which no row without a trace id fulfils
  abbrev pub of_trace : Str → RequestLog R → Bool
  of_trace trace_id row = elim row.trace_id [ none ↦ false | some t ↦ t == trace_id ]

  -- The statement of GetRunTree.
  unfoldable pub fetch_run_rows : List (RequestLog R) → Str → ℕ → Option (List (RunLeafRow R))
  unfolding leaf_row sort_by
  fetch_run_rows rows trace_id limit =
      some (map leaf_row (page limit 0 (oldest_first (filter (of_trace trace_id) rows))))

module _ (F : Float) (db : Functions F.R) where
  open F use {R}

  -- COUNT(DISTINCT trace_id), and the rows GROUP BY trace_id ORDER BY ended_at DESC LIMIT OFFSET
  abbrev pub all_runs : UsageFilter → List (RequestLog R) → List (RunListItem R)
  all_runs f rows =
      report ◌==◌ (λ row. coalesce row.trace_id [])
        (λ group. (first_label group, totals_of F db group, first_time group, last_time group))
        (λ k (t : Str × Totals R × ℕ × ℕ). record {
          trace_id = k;
          label = t.0;
          totals = t.1;
          started_at = t.2;
          ended_at = t.3;
        })
        (λ a b. ltb b.ended_at a.ended_at) (run_rows f rows)

  unfoldable pub list_runs :
      UsageFilter
      → ℕ
      → ℕ
      → Option (List (RequestLog R))
      → Option (List (RequestLog R))
      → Option (List (RunListItem R) × ℕ)
  unfolding report run_rows totals_of first_label first_time last_time sum_int
  list_runs f limit offset first second = do
    rows ← first
    listed_rows ← second
    some (page limit offset (all_runs f listed_rows), sum_int (λ run. 1) (all_runs f rows))
