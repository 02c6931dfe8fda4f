-- ===== src/Tests/Usage.antt =====
-- The reports and run trees at concrete rows: two calls of one run, and one that failed outside it.
use majordomo_gateway.Base.{
  ℕ, zero, suc, ◌+◌, ◌*◌, ◌≤◌, ◌≡◌, refl, false, Option, none, some, List, [], ◌∷◌, Str, lit, Dict,
  arith, take, filter, length, All, ltb, int_mod, ◌%◌, ◌==◌, lookup, Sorted,
}
use mathlib.Core.List.{Memᴰ, Permᴰ, Perm}
use mathlib.Core.List.Permᴰ
use majordomo_gateway.Logs.Types.{RequestLog}
use majordomo_gateway.Tests.Fixtures.{millionths}
use majordomo_gateway.Usage.Tree.{RunLeafRow, RunTree, get_run_tree, assembled}
use majordomo_gateway.Usage.Tree.Laws.{IsRunTree, get_run_tree-IsRunTree}
use majordomo_gateway.Usage.Filter.{UsageFilter, selected, in_window}
use majordomo_gateway.Usage.Reports.{
  Functions, Totals, DailyUsage, ModelUsage, ProviderUsage, ErrorSummary, totals_of, same_pair,
  get_usage_summary, get_daily_usage, get_model_breakdown, get_provider_breakdown,
  get_api_key_breakdown, get_error_summary, listed, list_usage_requests,
}
use majordomo_gateway.Usage.Reports.Laws.{
  measure, input, output, breakdown_lines, breakdowns_add_up,
}
use majordomo_gateway.Usage.Reports.Newest.{Apart}
use majordomo_gateway.Usage.Reports.Pages.{
  pages, errors_of, HasKey, pages_all, errors_agree, api_keys_add_up,
}
use majordomo_gateway.Usage.Aggregate.{sum_int}
use majordomo_gateway.Usage.Runs.{RunListItem, of_trace, list_runs, fetch_run_rows}
use majordomo_gateway.Usage.Runs.Laws.{Covers, list_runs-get_run_tree}

abbrev pub log : Str → Option Str → Str → ℕ → ℕ → RequestLog ℕ
log id trace span at status = record {
  id = id;
  majordomo_api_key_id = some (lit "k");
  provider_api_key_hash = none;
  provider_api_key_alias = none;
  provider = lit "p";
  model = lit "m";
  request_path = lit "/v1/chat/completions";
  request_method = lit "POST";
  requested_at = at;
  responded_at = at + 1;
  response_time_ms = 1;
  input_tokens = 5;
  output_tokens = 7;
  cached_tokens = 0;
  cache_creation_tokens = 0;
  cache_creation_5m_tokens = 0;
  cache_creation_1h_tokens = 0;
  input_cost = 1;
  cached_cost = 0;
  cache_creation_cost = 0;
  output_cost = 2;
  total_cost = 3;
  status_code = status;
  error_message = none;
  raw_metadata = (lit "user", lit "ann") ∷ [];
  indexed_metadata = [];
  body_s3_key = none;
  model_alias_found = false;
  deprecated_model_redirected = false;
  original_model = none;
  trace_id = trace;
  span_path = some span;
  span_name = some (lit "call");
  span_id = some id;
  parent_span_id = none;
  routed_provider = none;
  routing_reason = none;
  routing_original_model = none;
}

abbrev pub rows : List (RequestLog ℕ)
rows =
    log (lit "1") (some (lit "t")) (lit "plan/a") 10 200
    ∷ log (lit "2") none [] 11 500
    ∷ log (lit "3") (some (lit "t")) (lit "plan/b") 12 200
    ∷ []

abbrev every : UsageFilter
every = record {
  start = 0;
  end = 100;
  api_key_id = none;
  provider = none;
  model = none;
  status_class = [];
  metadata_filters = [];
  exclude_runs = false;
}

abbrev pub functions : Functions ℕ
functions = record {
  day_of = λ t. lit "d";
  avg = λ xs. 0;
  percentile_cont = λ p xs. 0;
  meets = λ rows. rows;
}

abbrev span_of : Str → Str → Str
span_of trace path = path

abbrev leaf : Str → Str → ℕ → RunLeafRow ℕ
leaf id path at = record {
  id = id;
  span_id = some id;
  parent_span_id = none;
  span_path = path;
  span_name = lit "call";
  provider = lit "p";
  model = lit "m";
  requested_at = at;
  responded_at = at + 1;
  response_time_ms = 1;
  status_code = 200;
  total_cost = 3;
}

abbrev leaves : Str → ℕ → Option (List (RunLeafRow ℕ))
leaves trace limit = some (leaf (lit "1") (lit "plan/a") 10 ∷ leaf (lit "3") (lit "plan/b") 12 ∷ [])

get_run_tree-IsRunTree_example :
    (t : RunTree ℕ) × (get_run_tree millionths span_of leaves (lit "t") ≡ assembled t)
    × IsRunTree millionths span_of
        (lit "t")
        (take 5000 (leaf (lit "1") (lit "plan/a") 10 ∷ leaf (lit "3") (lit "plan/b") 12 ∷ []))
        t
    × (t.truncated
        ≡ ltb 5000
            (length (leaf (lit "1") (lit "plan/a") 10 ∷ leaf (lit "3") (lit "plan/b") 12 ∷ [])))
get_run_tree-IsRunTree_example =
    get_run_tree-IsRunTree millionths span_of (lit "t") leaves (leaf (lit "1") (lit "plan/a") 10)
      (leaf (lit "3") (lit "plan/b") 12 ∷ []) refl

abbrev totals : ℕ → Totals ℕ
totals n = record {
  request_count = n;
  input_tokens = 5 * n;
  output_tokens = 7 * n;
  cached_tokens = 0;
  cache_creation_tokens = 0;
  total_cost = 3 * n;
  cached_cost = 0;
  cache_creation_cost = 0;
}

abbrev listed_run : RunListItem ℕ
listed_run = record {
  trace_id = lit "t";
  label = lit "plan";
  totals = totals 2;
  started_at = 10;
  ended_at = 13;
}

lists_it :
    list_runs millionths functions every 10 0 (some rows) (some rows) ≡ some (listed_run ∷ [], 1)
unfolding list_runs filter ◌==◌ lit
lists_it = refl

covers : Covers every (lit "t") rows
unfolding in_window
covers = (refl, (λ h. refl, (λ h. refl, (λ h. refl, tt))))

few : length (filter (of_trace listed_run.trace_id) rows) ≤ 5000
unfolding filter ◌==◌ lit
few = omega arith

list_runs-get_run_tree_example :
    (t : RunTree ℕ) × (get_run_tree millionths span_of (fetch_run_rows rows) (lit "t")
      ≡ assembled t)
    × (t.request_count ≡ listed_run.totals.request_count)
    × (t.truncated ≡ false)
list_runs-get_run_tree_example =
    list_runs-get_run_tree millionths functions span_of every 10 0 1 (listed_run ∷ []) listed_run
      rows lists_it (Memᴰ.head refl) covers few

abbrev day : DailyUsage ℕ
day = record { date = lit "d"; totals = totals 3 }

abbrev of_model : ModelUsage ℕ
of_model = record { provider = lit "p"; model = lit "m"; totals = totals 3 }

abbrev of_provider : ProviderUsage ℕ
of_provider = record { provider = lit "p"; totals = totals 3 }

daily : get_daily_usage millionths functions every rows ≡ day ∷ []
unfolding get_daily_usage filter ◌==◌ lit
daily = refl

models : get_model_breakdown millionths functions every rows ≡ of_model ∷ []
unfolding get_model_breakdown filter ◌==◌ lit
models = refl

providers : get_provider_breakdown millionths functions every rows ≡ of_provider ∷ []
unfolding get_provider_breakdown filter ◌==◌ lit
providers = refl

breakdown_lines_example :
    (day.totals
      ≡ totals_of millionths functions
          (filter (λ row. functions.day_of row.requested_at == day.date) (selected every rows)))
    × (of_model.totals
        ≡ totals_of millionths functions (
            filter
              (λ row. same_pair (row.provider, row.model) (of_model.provider, of_model.model))
              (selected every rows)))
    × (of_provider.totals
        ≡ totals_of millionths functions
            (filter (λ row. row.provider == of_provider.provider) (selected every rows)))
breakdown_lines_example =
    breakdown_lines millionths functions every rows day of_model of_provider
      (rw daily (Memᴰ.head refl)) (rw models (Memᴰ.head refl)) (rw providers (Memᴰ.head refl))

breakdowns_add_up_example :
    (sum_int
        (λ d. measure millionths functions input d.totals)
        (get_daily_usage millionths functions every rows)
      ≡ measure millionths functions input (get_usage_summary millionths functions every rows))
    × (sum_int
          (λ m. measure millionths functions input m.totals)
          (get_model_breakdown millionths functions every rows)
        ≡ measure millionths functions input (get_usage_summary millionths functions every rows))
    × (sum_int
          (λ p. measure millionths functions input p.totals)
          (get_provider_breakdown millionths functions every rows)
        ≡ measure millionths functions input (get_usage_summary millionths functions every rows))
breakdowns_add_up_example = breakdowns_add_up millionths functions every rows input

short : length (listed millionths functions every rows) ≤ 2 * 2
unfolding listed filter ◌==◌ lit
short = omega arith

-- The statement of the first page meets its first two rows the other way round.
orders : ℕ → List (RequestLog ℕ) → List (RequestLog ℕ)
orders zero (a ∷ b ∷ met) = b ∷ a ∷ met
orders i met = met

orders-Permᴰ : (i : ℕ) (met : List (RequestLog ℕ)) → Permᴰ met (orders i met)
unfolding orders
orders-Permᴰ zero [] = Permᴰ.refl _
orders-Permᴰ zero (a ∷ []) = Permᴰ.refl _
orders-Permᴰ zero (a ∷ b ∷ met) = Permᴰ.swap refl refl
orders-Permᴰ (suc i) met = Permᴰ.refl _

apart : Apart (listed millionths functions every rows)
unfolding listed filter ◌==◌ lit
apart = (
  ((λ h. omega (arith, h)), ((λ h. omega (arith, h)), tt)),
  (((λ h. omega (arith, h)), tt), (tt, tt)),
)

pages_all_example :
    Perm (pages millionths functions every 2 orders 2 rows) (listed millionths functions every rows)
    × Sorted
        (λ a b. ltb b.requested_at a.requested_at)
        (pages millionths functions every 2 orders 2 rows)
    × (items : List (RequestLog ℕ)) × (total : ℕ) × (list_usage_requests millionths functions every
          2 0
          (some rows)
          (some rows)
        ≡ some (items, total))
    × (total ≡ length (pages millionths functions every 2 orders 2 rows) % int_mod)
pages_all_example = pages_all millionths functions every 2 2 0 orders rows orders-Permᴰ apart short

errors_agree_example :
    (s : ErrorSummary ℕ) × (items : List (RequestLog ℕ)) × (get_error_summary millionths functions
        every
        (some rows)
        (some rows)
      ≡ some s)
    × (sum_int (λ d. d.request_count) s.daily ≡ s.total_requests)
    × (sum_int (λ d. d.error_count) s.daily ≡ s.error_requests)
    × (s.total_requests ≡ (get_usage_summary millionths functions every rows).request_count)
    × (list_usage_requests millionths functions
          (errors_of millionths functions every)
          2
          0
          (some rows)
          (some rows)
        ≡ some (items, s.error_requests))
errors_agree_example = errors_agree millionths functions every rows 2 0

abbrev api_keys : Dict Str
api_keys = (lit "k", lit "name") ∷ []

known : All (HasKey millionths functions api_keys) rows
unfolding lookup ◌==◌ lit
known = (
  (lit "k", lit "name", refl, refl),
  ((lit "k", lit "name", refl, refl), ((lit "k", lit "name", refl, refl), tt)),
)

api_keys_add_up_example :
    sum_int
      (λ u. measure millionths functions output u.totals)
      (get_api_key_breakdown millionths functions api_keys
        (record every { api_key_id = some (lit "other") })
        rows)
    ≡ measure millionths functions output
        (get_usage_summary millionths functions (record every { api_key_id = none }) rows)
api_keys_add_up_example =
    api_keys_add_up millionths functions api_keys (record every { api_key_id = some (lit "other") })
      rows output known
