-- ===== src/Metadata.antt =====
-- The metadata keys: HLLManager of internal/repositories/hll_manager.go and ActiveKeysCache of
-- internal/repositories/active_keys_cache.go. A sketch is hyperloglog's; an id is a string.
pub mod Laws
pub mod Batches
pub mod Activation
use majordomo_gateway.Base.{
  ℕ, ◌+◌, Bool, true, false, not, ◌&&◌, Option, none, some, List, [], ◌∷◌, ◌++◌, if◌then◌else◌, Str,
  ◌==◌, Dict, lookup, insert, delete, ltb, add_int, is_empty,
}

pub record HllKey : Type 0 where
  pub api_key_id : Str
  pub key_name : Str

-- The count is a Go int64.
pub record HllEntry (S : Type 0) : Type 0 where
  pub hll : S
  pub dirty : Bool
  pub count : ℕ

abbrev pub same_key : HllKey → HllKey → Bool
same_key a b = (a.api_key_id == b.api_key_id) && (a.key_name == b.key_name)

-- The operations of a sketch; `marshal` may fail.
pub record Sketches : Type 1 where
  pub S : Type 0
  pub fresh : S
  pub insert_value : Str → S → S
  pub marshal : S → Option Str
  pub unmarshal : Str → Option S
  pub estimate : S → ℕ

-- One execution of Flush's UPDATE: the sketch, the cardinality, the requests to add, and the row.
pub record Update : Type 0 where
  pub hll_state : Str
  pub approx_cardinality : ℕ
  pub request_count : ℕ
  pub key : HllKey

-- What ExecContext and RowsAffected tell of an UPDATE of the row of one key.
pub data Executed : Type 0 where
  exec_failed no_row row_updated : Executed

module _ (K : Sketches) where
  open K use {S}

  abbrev pub Hlls : Type 0
  Hlls = List (HllKey × HllEntry S)

  -- What LoadFromDB puts in for one row; a state that cannot be read is passed over.
  unfoldable pub put : HllKey → HllEntry S → Hlls → Hlls
  put key entry [] = (key, entry) ∷ []
  put key entry ((j, e) ∷ m) =
      let rest = put key entry m in if same_key j key then (j, entry) ∷ m else (j, e) ∷ rest

  unfoldable pub load_from_db : Hlls → List (HllKey × Str) → Hlls
  unfolding put
  load_from_db m [] = m
  load_from_db m ((key, bytes) ∷ rows) =
      load_from_db
        (elim (K.unmarshal bytes) [
          | none ↦ m
          | some hll ↦ put key (record { hll = hll; dirty = false; count = 0 }) m
        ])
        rows

  -- What AddValue does to the entry of its key.
  unfoldable pub note_value : Str → HllEntry S → HllEntry S
  note_value value entry = record {
    hll = K.insert_value value entry.hll;
    dirty = true;
    count = add_int entry.count 1;
  }

  unfoldable pub add_value : HllKey → Str → Hlls → Hlls
  unfolding note_value
  add_value key value [] =
      (key, note_value value (record { hll = K.fresh; dirty = true; count = 0 })) ∷ []
  add_value key value ((j, e) ∷ m) =
      let rest = add_value key value m in
      if same_key j key then (j, note_value value e) ∷ m else (j, e) ∷ rest

  -- The first loop of Flush: the copies to write, and what is left in memory.
  unfoldable pub take_dirty : Hlls → Hlls × Hlls
  take_dirty [] = ([], [])
  take_dirty ((key, e) ∷ m) =
      let (to_flush, left) = take_dirty m in
      if e.dirty
      then (
        (key, record e { dirty = false }) ∷ to_flush,
        (key, record e { dirty = false; count = 0 }) ∷ left,
      )
      else (to_flush, (key, e) ∷ left)

  -- The second loop: the updates that changed a row. One that fails, and one that finds no row, because
  -- the key is not registered yet, are only logged.
  unfoldable pub write_all : (Update → Executed) → Hlls → List Update
  write_all exec [] = []
  write_all exec ((key, e) ∷ to_flush) =
      let rest = write_all exec to_flush in
      elim (K.marshal e.hll) [
        | none ↦ rest
        | some bytes ↦
            let update : Update = record {
              hll_state = bytes;
              approx_cardinality = K.estimate e.hll;
              request_count = e.count;
              key = key;
            } in
            elim (exec update) [ exec_failed ↦ rest | no_row ↦ rest | row_updated ↦ update ∷ rest ]
      ]

  -- Flush: what is in memory, and the updates that changed a row.
  unfoldable pub flush : (Update → Executed) → Hlls → Hlls × List Update
  unfolding take_dirty write_all
  flush exec m = let (to_flush, left) = take_dirty m in (left, write_all exec to_flush)

pub record ActiveKeysEntry : Type 0 where
  pub keys : List Str
  pub expires_at : ℕ

-- GetActiveKeys reads the cache under its lock, queries without, and stores what came under the lock
-- again: other operations may come in between these three. This is the first, `now` the time in front of
-- the query.
unfoldable pub cached_keys : ℕ → Str → Dict ActiveKeysEntry → Option (List Str)
cached_keys now id cache = elim (lookup id cache) [
  | none ↦ none
  | some entry ↦ if ltb now entry.expires_at then some (entry.keys) else none
]

-- The last, `later` the time behind the query.
unfoldable pub store_keys : ℕ → ℕ → Str → List Str → Dict ActiveKeysEntry → Dict ActiveKeysEntry
store_keys ttl later id keys cache =
    insert id (record { keys = keys; expires_at = later + ttl }) cache

-- All three with nothing in between. `fetch` is the query: no keys where it fails, and an error where
-- its rows break off.
unfoldable pub get_active_keys :
    ℕ
    → ℕ
    → ℕ
    → (Str → Option (List Str))
    → Str
    → Dict ActiveKeysEntry
    → Dict ActiveKeysEntry × Option (List Str)
unfolding cached_keys store_keys
get_active_keys ttl now later fetch id cache = elim (cached_keys now id cache) [
  | some keys ↦ (cache, some keys)
  | none ↦ elim (fetch id) [
    | none ↦ (cache, none)
    | some keys ↦ (store_keys ttl later id keys cache, some keys)
  ]
]

unfoldable pub invalidate_api_key : Str → Dict ActiveKeysEntry → Dict ActiveKeysEntry
invalidate_api_key id cache = delete id cache

unfoldable pub invalidate_all : Dict ActiveKeysEntry → Dict ActiveKeysEntry
invalidate_all cache = []
