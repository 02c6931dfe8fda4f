-- ===== src/Metadata/Activation.antt =====
-- The activation of metadata keys: ActivateMetadataKey, DeactivateMetadataKey and the other statements of
-- internal/repositories/metadata_keys.go, internal/services/metadata_service.go, and the handlers of
-- internal/controllers/metadata_controller.go.
pub mod Laws
use majordomo_gateway.Base.{
  ℕ, ◌+◌, ◌<◌, ltb, lookup-insert, ◌≡◌, ◌⊎◌, ◌∙◌, ap, refl, inl, inr, Bool, true, false, Bool-cases,
  ◌&&◌, Option, none, some, List, [], ◌∷◌, if◌then◌else◌, Str, ◌==◌, eq_iff, is_empty, Dict, lookup,
  delete, lookup-delete, arith, eq_refl,
}
use majordomo_gateway.Metadata.{
  ActiveKeysEntry, cached_keys, store_keys, get_active_keys, invalidate_api_key,
}
use majordomo_gateway.Metadata.Batches.{
  Batched, finished, matching, IsCompleted, awaits_backfill, backfill_row, awaits_cleanup,
  cleanup_row, backfill_indexed_metadata, cleanup_indexed_metadata, index_batches-IsCompleted,
}
use majordomo_gateway.Logs.Types.{RequestLog}
use majordomo_gateway.Logs.Writer.{is_active_key}

-- A row of llm_requests_metadata_keys, without its counts.
pub record MetadataRow : Type 0 where
  pub api_key_id : Str
  pub key_name : Str
  pub display_name : Option Str
  pub is_active : Bool
  pub activated_at : Option ℕ

unfoldable pub is_row : Str → Str → MetadataRow → Bool
is_row id name row = (row.api_key_id == id) && (row.key_name == name)

-- The rows behind an UPDATE of one key, and whether there is one.
unfoldable pub update_key :
    (MetadataRow → MetadataRow) → Str → Str → List MetadataRow → List MetadataRow × Bool
unfolding is_row
update_key change id name [] = ([], false)
update_key change id name (row ∷ table) =
    let (rest, any) = update_key change id name table in
    if is_row id name row then (change row ∷ rest, true) else (row ∷ rest, any)

-- ListActiveMetadataKeysByAPIKey, and the query of the cache of active keys
unfoldable pub active_of : Str → List MetadataRow → List Str
active_of id [] = []
active_of id (row ∷ table) =
    let rest = active_of id table in
    if (row.api_key_id == id) && row.is_active then row.key_name ∷ rest else rest

-- ListAllActiveMetadataKeys
unfoldable pub all_active : List MetadataRow → List (Str × Str)
all_active [] = []
all_active (row ∷ table) =
    let rest = all_active table in
    if row.is_active then (row.api_key_id, row.key_name) ∷ rest else rest

pub data KeyChange : Type 0 where
  changed missing failed : KeyChange

-- ActivateMetadataKey and DeactivateMetadataKey: the rows and the cache behind it.
unfoldable pub activated : Bool → ℕ → MetadataRow → MetadataRow
activated on now row = record row {
  is_active = on;
  activated_at = if on then some now else row.activated_at;
}

unfoldable pub set_active :
    Bool
    → Bool
    → ℕ
    → Str
    → Str
    → List MetadataRow
    → Dict ActiveKeysEntry
    → List MetadataRow × Dict ActiveKeysEntry × KeyChange
unfolding update_key activated invalidate_api_key
set_active on ok now id name table cache =
    let (rows, any) = update_key (activated on now) id name table in
    if ok
    then if any then (rows, invalidate_api_key id cache, changed) else (rows, cache, missing)
    else (table, cache, failed)

-- UpdateMetadataKeyDisplayName
unfoldable pub update_display_name :
    Bool → Str → Str → Option Str → List MetadataRow → List MetadataRow × KeyChange
unfolding update_key
update_display_name ok id name display_name table =
    let (rows, any) =
      update_key (λ row. record row { display_name = display_name }) id name table in
    if ok then (rows, if any then changed else missing) else (table, failed)

-- The goroutine that Activate or Deactivate of the service starts: of a key of an API key, in batches.
pub data Background : Type 0 where
  nothing_started : Background
  backfill cleanup : Str → Str → ℕ → Background

abbrev pub backfill_batch_size : ℕ
backfill_batch_size = 1000

-- The work of the goroutine on the logs, which may come at any later time.
unfoldable pub work :
    {R : Type 0} → Background → ℕ → (ℕ → Bool) → List (RequestLog R) → Batched (RequestLog R)
unfolding backfill_indexed_metadata cleanup_indexed_metadata
work nothing_started fuel ok logs = finished 0 logs
work (backfill id name size) fuel ok logs = backfill_indexed_metadata id name fuel ok size logs
work (cleanup id name size) fuel ok logs = cleanup_indexed_metadata id name fuel ok size logs

unfoldable pub started_by : Bool → Str → Str → KeyChange → Background
started_by on id name changed =
    if on then backfill id name backfill_batch_size else cleanup id name backfill_batch_size
started_by on id name missing = nothing_started
started_by on id name failed = nothing_started

-- Activate and Deactivate of the service
unfoldable pub change_key :
    Bool
    → Bool
    → ℕ
    → Str
    → Str
    → List MetadataRow
    → Dict ActiveKeysEntry
    → List MetadataRow × Dict ActiveKeysEntry × KeyChange × Background
unfolding set_active started_by
change_key on ok now id name table cache =
    let (rows, cache', change) = set_active on ok now id name table cache in
    (rows, cache', change, started_by on id name change)

unfoldable pub status_of_change : KeyChange → ℕ
status_of_change changed = 200
status_of_change missing = 404
status_of_change failed = 500

-- Activate and Deactivate of the controller: the status, and what is started. A body that cannot be
-- decoded, and an id that is none, are `none`.
unfoldable pub change_handler :
    Bool
    → Bool
    → ℕ
    → Option (Option Str × Str)
    → List MetadataRow
    → Dict ActiveKeysEntry
    → List MetadataRow × Dict ActiveKeysEntry × ℕ × Background
unfolding change_key status_of_change
change_handler on ok now req table cache = elim req [
  | none ↦ (table, cache, 400, nothing_started)
  | some r ↦ elim (r.0) [
    | none ↦ (table, cache, 400, nothing_started)
    | some id ↦
        if is_empty (r.1)
        then (table, cache, 400, nothing_started)
        else let (rows, cache', change, started) = change_key on ok now id (r.1) table cache in
          (rows, cache', status_of_change change, started)
  ]
]
