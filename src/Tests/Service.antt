-- ===== src/Tests/Service.antt =====
-- The usage service at a concrete query, with a clock at the hundredth day.
use majordomo_gateway.Base.{
  ℕ, ◌+◌, ◌*◌, ◌≤◌, ◌<◌, ◌≡◌, ◌↔◌, refl, none, some, Option, [], ◌∷◌, lit, ◌==◌, arith, int_half,
  false,
}
use majordomo_gateway.Usage.Filter.{UsageFilter, MetadataFilter}
use majordomo_gateway.Usage.Service.{
  UsageQuery, UsageError, Calls, ok, err, resolve_filter, list_page, reported, report_status,
  nanoseconds_per_day,
}
use majordomo_gateway.Usage.Service.Errors.{report_status_iff}
use majordomo_gateway.Usage.Service.Laws.{list_page_bounds}

abbrev calls : Calls
calls = record {
  parse_uuid = λ s. some s;
  parse_day = λ s. none;
  parse_rfc3339 = λ s. none;
  now = 100 * nanoseconds_per_day + 5;
}

abbrev user : MetadataFilter
user = record { key = lit "user"; value = lit "ann" }

abbrev query : UsageQuery
query = record {
  preset = lit "7d";
  start = [];
  end = [];
  api_key_id = lit "k";
  provider = [];
  model = lit "m";
  status_class = lit "error";
  metadata_filters = user ∷ [];
  exclude_runs = false;
  limit = 500;
  offset = 3;
}

abbrev accepted_filter : UsageFilter
accepted_filter = record {
  start = 94 * nanoseconds_per_day;
  end = 101 * nanoseconds_per_day;
  api_key_id = some (lit "k");
  provider = none;
  model = some (lit "m");
  status_class = lit "error";
  metadata_filters = user ∷ [];
  exclude_runs = false;
}

accepts : resolve_filter calls query ≡ ok accepted_filter
unfolding resolve_filter lit ◌==◌
accepts = refl

abbrev first_page : UsageFilter → ℕ → ℕ → Option ℕ
first_page f limit offset = some limit

gets : list_page calls first_page query ≡ ok 200
unfolding list_page lit ◌==◌
gets = refl

list_page_bounds_example :
    (f : UsageFilter) × (limit : ℕ) × (offset : ℕ) × (resolve_filter calls query ≡ ok f)
    × (first_page f limit offset ≡ some 200)
    × (0 < limit)
    × (limit ≤ 200)
    × (offset < int_half)
    × (0 < query.limit → query.limit ≤ 200 → limit ≡ query.limit)
    × (query.offset < int_half → offset ≡ query.offset)
list_page_bounds_example =
    list_page_bounds calls first_page query 200 (omega arith) (omega arith) gets

abbrev fails : UsageFilter → Option ℕ
fails f = none

report_status_iff_example :
    ((report_status (some (reported calls fails query)) ≡ 400)
      ↔ ((e : UsageError) × (resolve_filter calls query ≡ err e)))
    × ((report_status (some (reported calls fails query)) ≡ 500)
        ↔ ((f : UsageFilter) × (resolve_filter calls query ≡ ok f) × (fails f ≡ none)))
report_status_iff_example = report_status_iff calls fails query
