-- ===== src/Usage/Filter.antt =====
-- UsageFilter of internal/repositories/usage.go, and the rows that its WHERE clauses let through.
use majordomo_gateway.Base.{
  ℕ, Bool, true, false, ◌&&◌, not, Option, none, some, List, [], ◌∷◌, if◌then◌else◌, Str, lit, ◌==◌,
  lookup, ltb, leb, is_some, filter,
}
use majordomo_gateway.Logs.Types.{RequestLog}

pub record MetadataFilter : Type 0 where
  pub key : Str
  pub value : Str

pub record UsageFilter : Type 0 where
  pub start : ℕ
  pub end : ℕ
  pub api_key_id : Option Str
  pub provider : Option Str
  pub model : Option Str
  pub status_class : Str
  pub metadata_filters : List MetadataFilter
  pub exclude_runs : Bool

-- ($n IS NULL OR column = $n), of a column that is never NULL
unfoldable pub equals_or_null : Option Str → Str → Bool
equals_or_null none column = true
equals_or_null (some v) column = column == v

-- The same of a column that may be NULL, which is equal to nothing.
unfoldable pub equals_or_null_key : Option Str → Option Str → Bool
equals_or_null_key none column = true
equals_or_null_key (some v) none = false
equals_or_null_key (some v) (some w) = w == v

module _ {R : Type 0} where
  unfoldable pub in_window : UsageFilter → RequestLog R → Bool
  in_window f row = leb f.start row.requested_at && ltb row.requested_at f.end

  -- appendMetadataFilters: AND indexed_metadata->>key = value for each filter
  unfoldable pub has_metadata : List MetadataFilter → RequestLog R → Bool
  has_metadata [] row = true
  has_metadata (f ∷ filters) row =
      let rest = has_metadata filters row in
      elim (lookup f.key row.indexed_metadata) [ none ↦ false | some v ↦ (v == f.value) && rest ]

  -- appendStatusClass
  unfoldable pub in_status_class : Str → RequestLog R → Bool
  in_status_class status_class row =
      if status_class == lit "error"
      then leb 400 row.status_code
      else if status_class == lit "success"
      then ltb row.status_code 400
      else true

  -- appendExcludeRuns
  unfoldable pub passes_exclude_runs : Bool → RequestLog R → Bool
  passes_exclude_runs exclude row = not (exclude && is_some row.trace_id)

  -- The clause without the API key, which GetAPIKeyBreakdown has.
  unfoldable pub selects_any_key : UsageFilter → RequestLog R → Bool
  unfolding in_window equals_or_null has_metadata
  selects_any_key f row =
      in_window f row
      && (equals_or_null f.provider row.provider
          && (equals_or_null f.model row.model && has_metadata f.metadata_filters row))

  -- The clause that the other statements share.
  unfoldable pub selects : UsageFilter → RequestLog R → Bool
  unfolding selects_any_key equals_or_null_key
  selects f row = equals_or_null_key f.api_key_id row.majordomo_api_key_id && selects_any_key f row

  unfoldable pub selected : UsageFilter → List (RequestLog R) → List (RequestLog R)
  unfolding selects
  selected f rows = filter (selects f) rows
