-- ===== src/Logs/Writer.antt =====
-- The Writer of internal/requestlog/writer.go: the channel with its two sides as steps, and what is
-- written of one log.
pub mod Laws
pub mod Keys
use majordomo_gateway.Base.{
  ℕ, Bool, true, false, ◌&&◌, Option, none, some, List, [], ◌∷◌, ◌++◌, if◌then◌else◌, Str, Dict,
  length, ◌<◌, ◌≤◌, ◌≡◌, ◌==◌, insert,
}
use majordomo_gateway.Logs.Types.{RequestLog}
use majordomo_gateway.Metadata.{HllKey, same_key, Sketches, Hlls, add_value}

-- make(chan *models.RequestLog, 1000)
abbrev pub capacity : ℕ
capacity = 1000

module _ (L : Type 0) where
  -- The channel, the logs that writeLog was called with and whether the database took each, and those
  -- that were dropped; whether `done` is closed, whether the database is open, and whether writeLoop runs.
  pub record WriterState : Type 0 where
    pub queue : List L
    pub written : List (L × Bool)
    pub dropped : List L
    pub done : Bool
    pub db_open : Bool
    pub running : Bool

  unfoldable pub fresh_writer : WriterState
  fresh_writer = record {
    queue = [];
    written = [];
    dropped = [];
    done = false;
    db_open = true;
    running = true;
  }

  -- One step of the process; `exec` says which rows the database takes while it is open.
  pub data WriterStep (exec : L → Bool) : WriterState → WriterState → Type 0 where
    -- WriteRequestLog, where the channel has room, and where it is full
    enqueue :
        (s : WriterState) (log : L)
        → length s.queue < capacity
        → WriterStep exec s (record s { queue = s.queue ++ log ∷ [] })
    drop_log :
        (s : WriterState) (log : L)
        → capacity ≤ length s.queue
        → WriterStep exec s (record s { dropped = s.dropped ++ log ∷ [] })
    -- writeLoop takes a log, in its loop or while it drains
    write_log :
        (s : WriterState) (log : L) (rest : List L)
        → s.running ≡ true
        → s.queue ≡ log ∷ rest
        → WriterStep exec s
            (record s { queue = rest; written = s.written ++ (log, s.db_open && exec log) ∷ [] })
    -- writeLoop sees `done`, and returns when the channel is empty
    return_loop :
        (s : WriterState)
        → s.running ≡ true
        → s.done ≡ true
        → s.queue ≡ []
        → WriterStep exec s (record s { running = false })
    -- Close: close(w.done), and then w.db.Close(), which waits for nothing in between but the flush of
    -- the sketches
    close_done : (s : WriterState) → WriterStep exec s (record s { done = true })
    close_db : (s : WriterState) → s.done ≡ true → WriterStep exec s (record s { db_open = false })

  pub data WriterRun (exec : L → Bool) (start : WriterState) : WriterState → Type 0 where
    started : WriterRun exec start start
    then_step :
        (s t : WriterState) → WriterRun exec start s → WriterStep exec s t → WriterRun exec start t

-- activeKeys[key]
unfoldable pub is_active_key : List Str → Str → Bool
is_active_key [] key = false
is_active_key (k ∷ active) key =
    let rest = is_active_key active key in if k == key then true else rest

-- The loop that copies the active keys.
unfoldable pub index_into : List Str → Dict Str → Dict Str → Dict Str
unfolding is_active_key
index_into active indexed [] = indexed
index_into active indexed ((key, value) ∷ metadata) =
    index_into active (if is_active_key active key then insert key value indexed else indexed)
      metadata

module _ {R : Type 0} where
  -- `active_keys` is what the cache of active keys has for an API key, nothing where the query fails.
  unfoldable pub indexed_metadata_of : (Str → Option (List Str)) → RequestLog R → Dict Str
  unfolding index_into
  indexed_metadata_of active_keys log = elim log.majordomo_api_key_id [
    | none ↦ []
    | some id ↦ elim (active_keys id) [
      | none ↦ []
      | some active ↦ index_into active [] log.raw_metadata
    ]
  ]

module _ (K : Sketches) where
  -- The loop that counts the keys of a log.
  unfoldable pub add_values : Str → Dict Str → Hlls K → Hlls K
  unfolding add_value
  add_values id [] m = m
  add_values id ((key, value) ∷ metadata) m =
      add_values id metadata (add_value K (record { api_key_id = id; key_name = key }) value m)

-- ON CONFLICT (majordomo_api_key_id, key_name)
unfoldable pub is_registered : HllKey → List HllKey → Bool
is_registered row [] = false
is_registered row (r ∷ table) =
    let rest = is_registered row table in if same_key r row then true else rest

-- registerMetadataKeys: the rows that are there behind it; `exec` says which the database takes.
unfoldable pub register_metadata_keys : (HllKey → Bool) → Str → Dict Str → List HllKey → List HllKey
unfolding is_registered
register_metadata_keys exec id [] table = table
register_metadata_keys exec id ((key, value) ∷ metadata) table =
    let row : HllKey = record { api_key_id = id; key_name = key } in
    register_metadata_keys exec id metadata
      (if is_registered row table then table else if exec row then table ++ row ∷ [] else table)

module _ {R : Type 0} (K : Sketches) where
  -- writeLog: the row that is inserted, where the database takes it, and the sketches and the rows of
  -- keys behind it.
  unfoldable pub write_row :
      (Str → Option (List Str))
      → (RequestLog R → Bool)
      → (HllKey → Bool)
      → RequestLog R
      → Hlls K × List HllKey
      → Option (RequestLog R) × (Hlls K × List HllKey)
  unfolding indexed_metadata_of add_values register_metadata_keys
  write_row active_keys exec exec_key log (m, table) =
      let row = record log { indexed_metadata = indexed_metadata_of active_keys log } in
      if exec row
      then (
        some row,
        elim log.majordomo_api_key_id [
          | none ↦ (m, table)
          | some id ↦ (
            add_values K id log.raw_metadata m,
            register_metadata_keys exec_key id log.raw_metadata table,
          )
        ],
      )
      else (none, (m, table))
