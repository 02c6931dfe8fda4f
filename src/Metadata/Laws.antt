-- ===== src/Metadata/Laws.antt =====
-- Where the counts of requests go: into memory, into the database, or, when a write fails or
-- finds no row, nowhere.
use majordomo_gateway.Base.{
  ◌++◌, eq_iff, ℕ, ◌+◌, ◌%◌, int_mod, true, refl, ◌≡◌, none, some, List, [], ◌∷◌, arith,
  if◌then◌else◌, Str, Bool-cases, add_int, eq_iff,
}
use majordomo_gateway.Metadata.{
  HllKey, same_key, Sketches, Update, Executed, exec_failed, no_row, row_updated, Hlls, note_value,
  add_value, take_dirty, write_all, flush,
}

same_key_cong : (j key k : HllKey) → same_key j key ≡ true → same_key j k ≡ same_key key k
same_key_cong j key k h =
    ground (arith, h, eq_iff j.api_key_id key.api_key_id, eq_iff j.key_name key.key_name)

module _ (K : Sketches) where
  -- The requests counted in memory for a key.
  unfoldable pub pending : HllKey → Hlls K → ℕ
  pending k [] = 0
  pending k ((j, e) ∷ m) = (if same_key j k then e.count else 0) + pending k m

  -- The requests that updates add to a key's row.
  unfoldable pub added : HllKey → List Update → ℕ
  added k [] = 0
  added k (u ∷ updates) = (if same_key u.key k then u.request_count else 0) + added k updates

  -- The requests of those copies that cannot be marshalled, whose update fails, or that have no row.
  unfoldable pub lost : (Update → Executed) → HllKey → Hlls K → ℕ
  lost exec k [] = 0
  lost exec k ((j, e) ∷ m) =
      (if same_key j k
        then elim (K.marshal e.hll) [
          | none ↦ e.count
          | some bytes ↦
              let update : Update = record {
                hll_state = bytes;
                approx_cardinality = K.estimate e.hll;
                request_count = e.count;
                key = j;
              } in
              elim (exec update) [ exec_failed ↦ e.count | no_row ↦ e.count | row_updated ↦ 0 ]
        ]
        else 0)
      + lost exec k m

  pending-take_dirty :
      (k : HllKey) (m : Hlls K)
      → pending k (take_dirty K m).0 + pending k (take_dirty K m).1 ≡ pending k m
  unfolding pending take_dirty
  pending-take_dirty k [] = refl
  pending-take_dirty k ((j, e) ∷ m) = ground (arith, pending-take_dirty k m)

  added-write_all :
      (exec : Update → Executed) (k : HllKey) (m : Hlls K)
      → added k (write_all K exec m) + lost exec k m ≡ pending k m
  unfolding added lost pending write_all
  added-write_all exec k [] = refl
  added-write_all exec k ((j, e) ∷ m) = ground (arith, added-write_all exec k m)

  -- A flush moves counts and makes none up: what it adds to a key's row, what it leaves in memory, and
  -- what is lost with the writes that fail or find no row are together what was in memory.
  pending-flush :
      (exec : Update → Executed) (k : HllKey) (m : Hlls K)
      → added k (flush K exec m).1 + pending k (flush K exec m).0 + lost exec k (take_dirty K m).0
        ≡ pending k m
  unfolding flush
  pending-flush exec k m =
      omega (arith, pending-take_dirty k m, added-write_all exec k (take_dirty K m).0)

  pub pending-add_value :
      (k key : HllKey) (value : Str) (m : Hlls K)
      → pending k (add_value K key value m) % int_mod
        ≡ (pending k m + (if same_key key k then 1 else 0)) % int_mod
  unfolding pending add_value note_value add_int
  pending-add_value k key value [] = ground (arith, Bool-cases (same_key key k))
  pending-add_value k key value ((j, e) ∷ m) =
      ground (arith, same_key_cong j key k, pending-add_value k key value m)

  -- A request that is counted, or a flush with what its writes come to.
  pub data Op : Type 0 where
    counts : HllKey → Str → Op
    flushes : (Update → Executed) → Op

  -- The sketches, and the updates made so far.
  unfoldable pub run : Hlls K → List Update → List Op → Hlls K × List Update
  run m db [] = (m, db)
  run m db (counts key value ∷ ops) = run (add_value K key value m) db ops
  run m db (flushes exec ∷ ops) = let (m', updates) = flush K exec m in run m' (db ++ updates) ops

  -- The requests for a key among the operations.
  unfoldable pub requests : HllKey → List Op → ℕ
  requests k [] = 0
  requests k (counts key value ∷ ops) = (if same_key key k then 1 else 0) + requests k ops
  requests k (flushes exec ∷ ops) = requests k ops

  -- The requests that the flushes of a run lose.
  unfoldable pub run_lost : HllKey → Hlls K → List Op → ℕ
  run_lost k m [] = 0
  run_lost k m (counts key value ∷ ops) = run_lost k (add_value K key value m) ops
  run_lost k m (flushes exec ∷ ops) =
      lost exec k (take_dirty K m).0 + run_lost k (flush K exec m).0 ops

  added-append : (k : HllKey) (us vs : List Update) → added k (us ++ vs) ≡ added k us + added k vs
  unfolding added
  added-append k [] vs = omega arith
  added-append k (u ∷ us) vs = omega (arith, added-append k us vs)

  -- Over any sequence of requests and flushes, every request for a key is in its row, in memory, or
  -- lost with a flush whose sketch could not be marshalled, whose update failed, or whose update found
  -- no row of the key, and is so once: the counts add up, as 64-bit integers do.
  pub run-counts :
      (k : HllKey) (m : Hlls K) (db : List Update) (ops : List Op)
      → (added k (run m db ops).1 + pending k (run m db ops).0 + run_lost k m ops) % int_mod
        ≡ (added k db + pending k m + requests k ops) % int_mod
  unfolding run requests run_lost
  run-counts k m db [] = refl
  run-counts k m db (counts key value ∷ ops) =
      omega (arith, run-counts k (add_value K key value m) db ops, pending-add_value k key value m)
  run-counts k m db (flushes exec ∷ ops) = omega (
    arith,
    run-counts k (flush K exec m).0 (db ++ (flush K exec m).1) ops,
    pending-flush exec k m,
    added-append k db (flush K exec m).1,
  )
