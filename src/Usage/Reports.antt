-- ===== src/Usage/Reports.antt =====
-- The statements of internal/repositories/usage.go that report usage, over the rows of llm_requests as a
-- statement finds them; `none` is a statement that fails.
pub mod Laws
pub mod Newest
pub mod Pages
use majordomo_gateway.Base.{
  ℕ, Bool, true, false, ◌&&◌, Option, none, some, List, [], ◌∷◌, ◌++◌, map, if◌then◌else◌, Str, lit,
  ◌==◌, Dict, lookup, ltb, leb, eqb, filter, Float, sort_by, str_lt, is_some, is_empty, split,
  length, ◌>>=◌,
}
use majordomo_gateway.Logs.Types.{RequestLog}
use majordomo_gateway.Usage.Aggregate.{sum_int, report, page}
use majordomo_gateway.Usage.Filter.{
  UsageFilter, selects, selected, selects_any_key, in_window, in_status_class, passes_exclude_runs,
  equals_or_null_key,
}

-- The columns that UsageSummary and the breakdowns have in common.
pub record Totals (R : Type 0) : Type 0 where
  pub request_count : ℕ
  pub input_tokens : ℕ
  pub output_tokens : ℕ
  pub cached_tokens : ℕ
  pub cache_creation_tokens : ℕ
  pub total_cost : R
  pub cached_cost : R
  pub cache_creation_cost : R

pub record DailyUsage (R : Type 0) : Type 0 where
  pub date : Str
  pub totals : Totals R

pub record ModelUsage (R : Type 0) : Type 0 where
  pub provider : Str
  pub model : Str
  pub totals : Totals R

pub record ProviderUsage (R : Type 0) : Type 0 where
  pub provider : Str
  pub totals : Totals R

pub record ApiKeyUsage (R : Type 0) : Type 0 where
  pub api_key_id : Str
  pub api_key_name : Str
  pub totals : Totals R

pub record MetadataBreakdown (R : Type 0) : Type 0 where
  pub value : Str
  pub request_count : ℕ
  pub input_tokens : ℕ
  pub output_tokens : ℕ
  pub total_cost : R

pub record DailyErrorRate (R : Type 0) : Type 0 where
  pub date : Str
  pub request_count : ℕ
  pub error_count : ℕ
  pub error_rate : R

pub record ErrorSummary (R : Type 0) : Type 0 where
  pub total_requests : ℕ
  pub error_requests : ℕ
  pub error_rate : R
  pub daily : List (DailyErrorRate R)

pub record RecentError : Type 0 where
  pub id : Str
  pub api_key_id : Option Str
  pub api_key_name : Option Str
  pub provider : Str
  pub model : Str
  pub status_code : ℕ
  pub error_message : Option Str
  pub requested_at : ℕ

pub record Latencies (R : Type 0) : Type 0 where
  pub avg_latency_ms : R
  pub p50_latency_ms : R
  pub p95_latency_ms : R
  pub p99_latency_ms : R

pub record DailyLatency (R : Type 0) : Type 0 where
  pub date : Str
  pub latencies : Latencies R

pub record LatencyStats (R : Type 0) : Type 0 where
  pub latencies : Latencies R
  pub daily : List (DailyLatency R)

-- The functions of the database that are not computed here: the day of a time as YYYY-MM-DD, AVG, and
-- PERCENTILE_CONT of a fraction in hundredths; and the order in which an execution of a statement meets
-- the rows, which ORDER BY leaves to rows that are equal in its column.
pub record Functions (R : Type 0) : Type 0 where
  pub day_of : ℕ → Str
  pub avg : List ℕ → R
  pub percentile_cont : ℕ → List ℕ → R
  pub meets : List (RequestLog R) → List (RequestLog R)

-- The parts of a group's key, compared one by one.
unfoldable pub same_pair : Str × Str → Str × Str → Bool
same_pair a b = (a.0 == b.0) && (a.1 == b.1)

module _ (F : Float) (db : Functions F.R) where
  open F use {R}

  abbrev pub Row : Type 0
  Row = RequestLog R

  -- COALESCE(SUM(column), 0) of a double
  unfoldable pub sum_float : (Row → R) → List Row → R
  sum_float column [] = F.of_int 0
  sum_float column (row ∷ rows) = F.add (column row) (sum_float column rows)

  unfoldable pub totals_of : List Row → Totals R
  unfolding sum_int sum_float
  totals_of rows = record {
    request_count = sum_int (λ row. 1) rows;
    input_tokens = sum_int (λ row. row.input_tokens) rows;
    output_tokens = sum_int (λ row. row.output_tokens) rows;
    cached_tokens = sum_int (λ row. row.cached_tokens) rows;
    cache_creation_tokens = sum_int (λ row. row.cache_creation_tokens) rows;
    total_cost = sum_float (λ row. row.total_cost) rows;
    cached_cost = sum_float (λ row. row.cached_cost) rows;
    cache_creation_cost = sum_float (λ row. row.cache_creation_cost) rows;
  }

  -- ORDER BY total_cost DESC
  abbrev pub dearer : Totals R → Totals R → Bool
  dearer a b = F.lt b.total_cost a.total_cost

  unfoldable pub get_usage_summary : UsageFilter → List Row → Totals R
  unfolding totals_of selected
  get_usage_summary f rows = totals_of (selected f rows)

  unfoldable pub get_daily_usage : UsageFilter → List Row → List (DailyUsage R)
  unfolding totals_of selected report
  get_daily_usage f rows =
      report ◌==◌ (λ row. db.day_of row.requested_at) totals_of
        (λ k t. record { date = k; totals = t }) (λ a b. str_lt a.date b.date) (selected f rows)

  unfoldable pub get_model_breakdown : UsageFilter → List Row → List (ModelUsage R)
  unfolding totals_of selected report same_pair
  get_model_breakdown f rows =
      report same_pair (λ row. (row.provider, row.model)) totals_of
        (λ k t. record { provider = k.0; model = k.1; totals = t })
        (λ a b. dearer a.totals b.totals) (selected f rows)

  unfoldable pub get_provider_breakdown : UsageFilter → List Row → List (ProviderUsage R)
  unfolding totals_of selected report
  get_provider_breakdown f rows =
      report ◌==◌ (λ row. row.provider) totals_of (λ k t. record { provider = k; totals = t })
        (λ a b. dearer a.totals b.totals) (selected f rows)

  -- JOIN api_keys, a map from the ids to the names: a row with no key, or an unknown one, falls out.
  unfoldable pub join_api_keys : Dict Str → List Row → List ((Str × Str) × Row)
  join_api_keys api_keys [] = []
  join_api_keys api_keys (row ∷ rows) =
      let rest = join_api_keys api_keys rows in
      elim row.majordomo_api_key_id [
        | none ↦ rest
        | some id ↦ elim (lookup id api_keys) [ none ↦ rest | some name ↦ ((id, name), row) ∷ rest ]
      ]

  unfoldable pub get_api_key_breakdown : Dict Str → UsageFilter → List Row → List (ApiKeyUsage R)
  unfolding totals_of join_api_keys report same_pair selects_any_key
  get_api_key_breakdown api_keys f rows =
      report same_pair (λ joined. joined.0) (λ group. totals_of (map (λ joined. joined.1) group))
        (λ k t. record { api_key_id = k.0; api_key_name = k.1; totals = t })
        (λ a b. dearer a.totals b.totals) (join_api_keys api_keys (filter (selects_any_key f) rows))

  -- errorRate
  unfoldable pub error_rate : ℕ → ℕ → R
  error_rate err_count total =
      if eqb total 0 then F.of_int 0 else F.div (F.of_int err_count) (F.of_int total)

  -- SUM(CASE WHEN status_code >= 400 THEN 1 ELSE 0 END)
  unfoldable pub count_errors : List Row → ℕ
  unfolding sum_int
  count_errors rows = sum_int (λ row. if leb 400 row.status_code then 1 else 0) rows

  -- GetErrorSummary: two statements, each of which may find other rows.
  unfoldable pub get_error_summary :
      UsageFilter → Option (List Row) → Option (List Row) → Option (ErrorSummary R)
  unfolding count_errors selected error_rate report sum_int
  get_error_summary f first second = do
    rows ← first
    daily_rows ← second
    let total = sum_int (λ row. 1) (selected f rows)
    let errors = count_errors (selected f rows)
    some (record {
      total_requests = total;
      error_requests = errors;
      error_rate = error_rate errors total;
      daily =
          report {T = ℕ × ℕ} ◌==◌ (λ row. db.day_of row.requested_at)
            (λ group. (sum_int (λ row. 1) group, count_errors group))
            (λ k t. record {
              date = k;
              request_count = t.0;
              error_count = t.1;
              error_rate = error_rate (t.1) (t.0);
            })
            (λ a b. str_lt a.date b.date) (selected f daily_rows);
    })

  -- ORDER BY requested_at DESC
  abbrev pub newest_first : List Row → List Row
  newest_first rows = sort_by (λ a b. ltb b.requested_at a.requested_at) (db.meets rows)

  unfoldable pub get_recent_errors : Dict Str → UsageFilter → ℕ → List Row → List RecentError
  unfolding selected sort_by
  get_recent_errors api_keys f limit rows =
      map
        (λ row. record {
          id = row.id;
          api_key_id = row.majordomo_api_key_id;
          api_key_name = row.majordomo_api_key_id >>= (λ id. lookup id api_keys);
          provider = row.provider;
          model = row.model;
          status_code = row.status_code;
          error_message = row.error_message;
          requested_at = row.requested_at;
        })
        (page limit 0 (newest_first (filter (λ row. leb 400 row.status_code) (selected f rows))))

  unfoldable pub latencies_of : List Row → Latencies R
  latencies_of rows =
      let times = map (λ row. row.response_time_ms) rows in
      if is_empty rows
      then record {
        avg_latency_ms = F.of_int 0;
        p50_latency_ms = F.of_int 0;
        p95_latency_ms = F.of_int 0;
        p99_latency_ms = F.of_int 0;
      }
      else record {
        avg_latency_ms = db.avg times;
        p50_latency_ms = db.percentile_cont 50 times;
        p95_latency_ms = db.percentile_cont 95 times;
        p99_latency_ms = db.percentile_cont 99 times;
      }

  unfoldable pub get_latency_stats :
      UsageFilter → Option (List Row) → Option (List Row) → Option (LatencyStats R)
  unfolding latencies_of selected report
  get_latency_stats f first second = do
    rows ← first
    daily_rows ← second
    some (record {
      latencies = latencies_of (selected f rows);
      daily =
          report ◌==◌ (λ row. db.day_of row.requested_at) latencies_of
            (λ k t. record { date = k; latencies = t }) (λ a b. str_lt a.date b.date)
            (selected f daily_rows);
    })

  unfoldable pub listed : UsageFilter → List Row → List Row
  unfolding selected in_status_class passes_exclude_runs
  listed f rows =
      filter (λ row. in_status_class f.status_class row && passes_exclude_runs f.exclude_runs row)
        (selected f rows)

  -- ListUsageRequests: the statement that counts, and the one that lists.
  unfoldable pub list_usage_requests :
      UsageFilter → ℕ → ℕ → Option (List Row) → Option (List Row) → Option (List Row × ℕ)
  unfolding listed sort_by sum_int
  list_usage_requests f limit offset first second = do
    rows ← first
    listed_rows ← second
    some (
      page limit offset (newest_first (listed f listed_rows)),
      sum_int (λ row. 1) (listed f rows),
    )

  -- indexed_metadata ? key, with the value
  unfoldable pub with_metadata : Str → List Row → List (Str × Row)
  with_metadata key [] = []
  with_metadata key (row ∷ rows) =
      let rest = with_metadata key rows in
      elim (lookup key row.indexed_metadata) [ none ↦ rest | some value ↦ (value, row) ∷ rest ]

  unfoldable pub get_metadata_breakdown : UsageFilter → Str → List Row → List (MetadataBreakdown R)
  unfolding totals_of with_metadata selected report
  get_metadata_breakdown f key_name rows =
      report ◌==◌ (λ e. e.0) (λ group. totals_of (map (λ e. e.1) group))
        (λ k t. record {
          value = k;
          request_count = t.request_count;
          input_tokens = t.input_tokens;
          output_tokens = t.output_tokens;
          total_cost = t.total_cost;
        })
        (λ a b. F.lt b.total_cost a.total_cost) (with_metadata key_name (selected f rows))

  -- GetRequestDetail: the first row with the id, or ErrRequestNotFound.
  unfoldable pub get_request_detail : Str → List Row → Option Row
  get_request_detail id [] = none
  get_request_detail id (row ∷ rows) =
      let rest = get_request_detail id rows in if row.id == id then some row else rest
