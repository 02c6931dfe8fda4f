-- ===== src/Logs/Writer/Keys.antt =====
-- The metadata of a log that is written: which of it is indexed, and which is counted.
use majordomo_gateway.Base.{
  ◌+◌, ◌%◌, ◌≡◌, refl, ap, ◌∙◌, Bool, true, false, Bool-cases, ◌⊎◌, inl, inr, Option, none, some,
  List, [], ◌∷◌, arith, if◌then◌else◌, Str, eq_iff, Dict, lookup, insert, lookup-insert, Distinct,
  or_else, is_some, int_mod,
}
use majordomo_gateway.Logs.Types.{RequestLog}
use majordomo_gateway.Logs.Writer.{
  is_active_key, index_into, indexed_metadata_of, add_values, write_row,
}
use majordomo_gateway.Metadata.{HllKey, Sketches, Hlls, add_value}
use majordomo_gateway.Metadata.Laws.{pending, pending-add_value}

lookup-index_into :
    (active : List Str) (indexed metadata : Dict Str) (k : Str)
    → Distinct metadata
    → lookup k (index_into active indexed metadata)
      ≡ or_else (if is_active_key active k then lookup k metadata else none) (lookup k indexed)
unfolding index_into lookup
lookup-index_into active indexed [] k d = ground arith
lookup-index_into active indexed ((j, v) ∷ metadata) k (fresh, d) = ground (
  arith,
  lookup-index_into active (if is_active_key active j then insert j v indexed else indexed) metadata
      k d,
  lookup-insert j k v indexed,
  eq_iff j k,
)

or_none : (o : Option Str) → or_else o none ≡ o
or_none none = refl
or_none (some v) = refl

module _ (K : Sketches) where
  abbrev pub key_of : Str → Str → HllKey
  key_of id k = record { api_key_id = id; key_name = k }

  pending-add_values :
      (id k : Str) (metadata : Dict Str) (m : Hlls K)
      → Distinct metadata
      → pending K (key_of id k) (add_values K id metadata m) % int_mod
        ≡ (pending K (key_of id k) m + (if is_some (lookup k metadata) then 1 else 0)) % int_mod
  unfolding add_values lookup
  pending-add_values id k [] m d = omega arith
  pending-add_values id k ((j, v) ∷ metadata) m (fresh, d) = ground (
    arith,
    pending-add_values id k metadata (add_value K (key_of id j) v m) d,
    pending-add_value K (key_of id k) (key_of id j) v m,
    eq_iff j k,
    eq_iff id id,
  )

  indexed_lem :
      {R : Type 0} (active_keys : Str → Option (List Str)) (log : RequestLog R) (id : Str)
      (active : List Str)
      → log.majordomo_api_key_id ≡ some id
      → active_keys id ≡ some active
      → indexed_metadata_of active_keys log ≡ index_into active [] log.raw_metadata
  unfolding indexed_metadata_of
  indexed_lem active_keys log id active e f = ground (arith, e, f)

  -- A log is written whole or not at all. What the database is given is the log, with an index of
  -- exactly the metadata whose keys are active for its API key. If the database takes it, then of the
  -- keys of this API key each that its metadata has, active or not, is counted once, and no other; if
  -- not, nothing is counted or registered.
  pub write_row_lem :
      {R : Type 0} (active_keys : Str → Option (List Str)) (exec : RequestLog R → Bool)
      (exec_key : HllKey → Bool) (log : RequestLog R) (m : Hlls K) (table : List HllKey) (id : Str)
      (active : List Str)
      → log.majordomo_api_key_id ≡ some id
      → active_keys id ≡ some active
      → Distinct log.raw_metadata
      → (indexed : Dict Str) × ((k : Str)
          → lookup k indexed ≡ (if is_active_key active k then lookup k log.raw_metadata else none))
        × let row = record log { indexed_metadata = indexed } in
          let written = write_row K active_keys exec exec_key log (m, table) in
          ((exec row ≡ true)
            × (written.0 ≡ some row)
            × ((k : Str)
                → pending K (key_of id k) written.1.0 % int_mod
                  ≡ (pending K (key_of id k) m
                      + (if is_some (lookup k log.raw_metadata) then 1 else 0))
                    % int_mod))
          ⊎ ((exec row ≡ false) × (written ≡ (none, (m, table))))
  unfolding write_row lookup
  write_row_lem active_keys exec exec_key log m table id active e f d =
      let indexed = indexed_metadata_of active_keys log in
      let row = record log { indexed_metadata = indexed } in
      (
        indexed,
        λ k.
            ap (lookup k) (indexed_lem active_keys log id active e f)
            ∙ lookup-index_into active [] log.raw_metadata k d
            ∙ or_none (if is_active_key active k then lookup k log.raw_metadata else none),
        elim (Bool-cases (exec row)) [
          | inl taken ↦ inl (
            taken,
            rw (taken, write_row) refl,
            λ k. rw (taken, e, write_row) (pending-add_values id k log.raw_metadata m d),
          )
          | inr refused ↦ inr (refused, rw (refused, write_row) refl)
        ],
      )
