-- ===== src/Usage/Service.antt =====
-- internal/services/usage_service.go: from a query to a filter, the limits of a page, and the archived
-- bodies. Times count the nanoseconds from the zero time of Go, which begins a day.
pub mod Laws
pub mod Errors
use majordomo_gateway.Base.{
  ℕ, ◌+◌, ◌-◌, ◌*◌, ◌/◌, Bool, true, false, not, ◌||◌, Option, none, some, List, [], ◌∷◌, ◌++◌,
  if◌then◌else◌, Str, lit, ◌==◌, is_empty, length, ltb, lt_int, is_pos, int_half, leb, Float,
}
use majordomo_gateway.Logs.Types.{RequestLog}
use majordomo_gateway.Usage.Filter.{MetadataFilter, UsageFilter}

-- models.UsageQuery, with UsageQueryFilter for each metadata filter; a limit is the pattern of an int.
pub record UsageQuery : Type 0 where
  pub preset : Str
  pub start : Str
  pub end : Str
  pub api_key_id : Str
  pub provider : Str
  pub model : Str
  pub status_class : Str
  pub metadata_filters : List MetadataFilter
  pub exclude_runs : Bool
  pub limit : ℕ
  pub offset : ℕ

-- The validation errors, and the others that the usage endpoints tell apart.
pub data UsageError : Type 0 where
  too_many_filters invalid_api_key_id invalid_status_class empty_filter invalid_start invalid_end :
      UsageError
  archival_disabled request_not_found no_body_archived storage_failed : UsageError

pub data Result (A : Type 0) : Type 0 where
  ok : A → Result A
  err : UsageError → Result A

abbrev pub and_then : {A B : Type 0} → Result A → (A → Result B) → Result B
and_then (ok a) next = next a
and_then (err e) next = err e

-- What the service calls: uuid.Parse, time.Parse with its two layouts, and time.Now().UTC().
pub record Calls : Type 0 where
  pub parse_uuid : Str → Option Str
  pub parse_day : Str → Option ℕ
  pub parse_rfc3339 : Str → Option ℕ
  pub now : ℕ

abbrev pub nanoseconds_per_day : ℕ
nanoseconds_per_day = 86_400_000_000_000

unfoldable pub clamp_limit : ℕ → ℕ → ℕ → ℕ
clamp_limit v def max = if not (is_pos v) then def else if lt_int max v then max else v

unfoldable pub clamp_offset : ℕ → ℕ
clamp_offset v = if leb int_half v then 0 else v

-- if s != "" { p := s; field = &p }
unfoldable pub some_nonempty : Str → Option Str
some_nonempty s = if is_empty s then none else some s

-- The loop over the metadata filters.
unfoldable pub check_filters : List MetadataFilter → Result (List MetadataFilter)
check_filters [] = ok []
check_filters (f ∷ filters) =
    let rest = and_then (check_filters filters) (λ fs. ok (f ∷ fs)) in
    if is_empty f.key || is_empty f.value then err empty_filter else rest

module _ (calls : Calls) where
  unfoldable pub parse_date : Str → Option ℕ
  parse_date s = elim (calls.parse_day s) [ some t ↦ some t | none ↦ calls.parse_rfc3339 s ]

  -- now.Truncate(24 * time.Hour).Add(24 * time.Hour): the next midnight
  unfoldable pub end_of_day : ℕ → ℕ
  end_of_day now = (now / nanoseconds_per_day) * nanoseconds_per_day + nanoseconds_per_day

  unfoldable pub preset_days : Str → ℕ
  preset_days preset = if preset == lit "7d" then 7 else if preset == lit "90d" then 90 else 30

  unfoldable pub resolve_key : Str → Result (Option Str)
  resolve_key id = if is_empty id then ok none else elim (calls.parse_uuid id) [
    | none ↦ err invalid_api_key_id
    | some parsed ↦ ok (some parsed)
  ]

  unfoldable pub resolve_status_class : Str → Result Str
  resolve_status_class c =
      if is_empty c || (c == lit "error" || c == lit "success")
      then ok c
      else err invalid_status_class

  -- The start and the end.
  unfoldable pub resolve_window : UsageQuery → Result (ℕ × ℕ)
  unfolding parse_date end_of_day preset_days
  resolve_window q =
      if is_empty q.start
      then (let end = end_of_day calls.now in
          let preset = if is_empty q.preset then lit "30d" else q.preset in
          ok (end - preset_days preset * nanoseconds_per_day, end))
      else elim (parse_date q.start) [
        | none ↦ err invalid_start
        | some start ↦
            if is_empty q.end
            then ok (start, end_of_day calls.now)
            else elim (parse_date q.end) [ none ↦ err invalid_end | some end ↦ ok (start, end) ]
      ]

  unfoldable pub resolve_filter : UsageQuery → Result UsageFilter
  unfolding resolve_key resolve_status_class check_filters resolve_window some_nonempty
  resolve_filter q =
      if ltb 2 (length q.metadata_filters)
      then err too_many_filters
      else and_then (resolve_key q.api_key_id) (λ key.
        and_then (resolve_status_class q.status_class) (λ status_class.
          and_then (check_filters q.metadata_filters) (λ filters.
            and_then (resolve_window q) (λ window. ok (record {
              start = window.0;
              end = window.1;
              api_key_id = key;
              provider = some_nonempty q.provider;
              model = some_nonempty q.model;
              status_class = status_class;
              metadata_filters = filters;
              exclude_runs = q.exclude_runs;
            })))))

  -- Summary, DailyUsage, the breakdowns, ErrorSummary and LatencyStats: a report for the filter, where
  -- `none` is a failed statement.
  unfoldable pub reported : {A : Type 0} → (UsageFilter → Option A) → UsageQuery → Result A
  unfolding resolve_filter
  reported report q =
      and_then (resolve_filter q)
        (λ f. elim (report f) [ none ↦ err storage_failed | some a ↦ ok a ])

  unfoldable pub recent_errors : {A : Type 0} → (UsageFilter → ℕ → Option A) → UsageQuery → Result A
  unfolding reported clamp_limit
  recent_errors get q = reported (λ f. get f (clamp_limit q.limit 20 100)) q

  -- ListRequests and ListRuns.
  unfoldable pub list_page : {A : Type 0} → (UsageFilter → ℕ → ℕ → Option A) → UsageQuery → Result A
  unfolding reported clamp_limit clamp_offset
  list_page list q = reported (λ f. list f (clamp_limit q.limit 50 200) (clamp_offset q.offset)) q

-- RequestBody. `store` is there where archival is enabled; `detail` finds the log of a request, and
-- `download` an object.
unfoldable pub request_body :
    {R Content : Type 0}
    → Option (Str → Option Content)
    → (Str → Result (RequestLog R))
    → Str
    → Result Content
request_body store detail id = elim store [
  | none ↦ err archival_disabled
  | some download ↦ elim (detail id) [
    | err e ↦ err e
    | ok log ↦ elim log.body_s3_key [
      | none ↦ err no_body_archived
      | some key ↦ elim (download key) [ none ↦ err storage_failed | some content ↦ ok content ]
    ]
  ]
]

-- errors.Is(err, ErrValidation)
unfoldable pub is_validation : UsageError → Bool
is_validation archival_disabled = false
is_validation request_not_found = false
is_validation no_body_archived = false
is_validation storage_failed = false
is_validation e = true

-- The status of UsageController's answers: writeErr, and the cases of GetRequestBody. A query that
-- cannot be decoded is `none`.
unfoldable pub report_status : {A : Type 0} → Option (Result A) → ℕ
unfolding is_validation
report_status none = 400
report_status (some (ok a)) = 200
report_status (some (err e)) = if is_validation e then 400 else 500

unfoldable pub body_status : {A : Type 0} → Option (Result A) → ℕ
body_status none = 400
body_status (some (ok a)) = 200
body_status (some (err archival_disabled)) = 404
body_status (some (err request_not_found)) = 404
body_status (some (err no_body_archived)) = 404
body_status (some (err e)) = 500
