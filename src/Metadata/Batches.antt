-- ===== src/Metadata/Batches.antt =====
-- BackfillIndexedMetadata and CleanupIndexedMetadata of internal/repositories/metadata_keys.go: an
-- update that is made in batches, until a batch is not full.
use majordomo_gateway.Base.{
  ℕ, zero, suc, ◌+◌, ◌≤◌, ◌<◌, ◌≡◌, refl, sym, ap, ◌∙◌, Bool, true, false, not, ◌&&◌, Bool-cases,
  inl, inr, none, some, List, [], ◌∷◌, map, arith, if◌then◌else◌, Str, ◌==◌, eq_refl, lookup,
  insert, delete, lookup-insert, lookup-delete, ltb, add_int, is_some, Option-cases,
}
use majordomo_gateway.Logs.Types.{RequestLog}

pub data Batched (A : Type 0) : Type 0 where
  out_of_fuel : Batched A
  failed finished : ℕ → List A → Batched A

module _ {A : Type 0} (test : A → Bool) where
  unfoldable pub matching : List A → ℕ
  matching [] = 0
  matching (row ∷ rows) = let rest = matching rows in if test row then suc rest else rest

module _ {A : Type 0} (test : A → Bool) (change : A → A) where
  -- UPDATE … WHERE id IN (SELECT id … LIMIT n): the rows behind it, and how many it changed.
  unfoldable pub update_batch : ℕ → List A → List A × ℕ
  update_batch zero rows = (rows, 0)
  update_batch (suc n) [] = ([], 0)
  update_batch (suc n) (row ∷ rows) =
      let (rest, changed) = update_batch (if test row then n else suc n) rows in
      if test row then (change row ∷ rest, suc changed) else (row ∷ rest, changed)

  -- The loop; `ok` says which batch the database takes, by the total in front of it.
  unfoldable pub update_in_batches : ℕ → (ℕ → Bool) → ℕ → ℕ → List A → Batched A
  unfolding update_batch
  update_in_batches zero ok batch_size total rows = out_of_fuel
  update_in_batches (suc fuel) ok batch_size total rows =
      let (rows', n) = update_batch batch_size rows in
      let rest = update_in_batches fuel ok batch_size (add_int total n) rows' in
      if ok total
      then if ltb n batch_size then finished (add_int total n) rows' else rest
      else failed total rows

  -- What the batches come to: every row that the test takes is changed.
  abbrev pub updated : List A → List A
  updated rows = map (λ row. if test row then change row else row) rows

  unfoldable pub IsCompleted : (ℕ → Bool) → ℕ → List A → Batched A → Type 0
  IsCompleted ok total rows out_of_fuel = ⊥
  IsCompleted ok total rows (failed t left) =
      (ok t ≡ false)
      × (add_int t (matching test left) ≡ add_int total (matching test rows))
      × (updated left ≡ updated rows)
  IsCompleted ok total rows (finished t left) =
      (t ≡ add_int total (matching test rows)) × (left ≡ updated rows)

  module _ (once : (row : A) → test row ≡ true → test (change row) ≡ false) where
    update_batch_lem :
        (n : ℕ) (rows : List A)
        → (matching test (update_batch n rows).0 + (update_batch n rows).1 ≡ matching test rows)
          × ((update_batch n rows).1 ≤ n)
          × ((update_batch n rows).1 < n → matching test (update_batch n rows).0 ≡ 0)
          × (updated (update_batch n rows).0 ≡ updated rows)
    unfolding update_batch matching
    update_batch_lem zero rows = (omega arith, omega arith, λ h. absurd (omega arith), refl)
    update_batch_lem (suc n) [] = (omega arith, omega arith, λ h. refl, refl)
    update_batch_lem (suc n) (row ∷ rows) = elim (Bool-cases (test row)) [
      | inl e ↦
          let (a, b, c, d) = update_batch_lem n rows in
          let off = once row e in
          rw (e, off)
            ((
              omega (arith, a),
              omega (arith, b),
              λ h. c (omega (arith, h)),
              ap (λ l. change row ∷ l) d,
            ))
      | inr e ↦
          let (a, b, c, d) = update_batch_lem (suc n) rows in
          rw (e, e) (a, b, c, ap (λ l. row ∷ l) d)
    ]

    updated_none : (rows : List A) → matching test rows ≡ 0 → updated rows ≡ rows
    unfolding matching
    updated_none [] h = refl
    updated_none (row ∷ rows) h = elim (Bool-cases (test row)) [
      | inl e ↦ absurd (omega (arith, h, rw e at h))
      | inr e ↦ rw e (ap (λ l. row ∷ l) (updated_none rows (rw e at h)))
    ]

    IsCompleted-trans :
        (ok : ℕ → Bool) (total total' : ℕ) (rows rows' : List A) (result : Batched A)
        → add_int total' (matching test rows') ≡ add_int total (matching test rows)
        → updated rows' ≡ updated rows
        → IsCompleted ok total' rows' result
        → IsCompleted ok total rows result
    unfolding IsCompleted
    IsCompleted-trans ok total total' rows rows' out_of_fuel sum same h = h
    IsCompleted-trans ok total total' rows rows' (failed t left) sum same (a, b, c) =
        (a, b ∙ sum, c ∙ same)
    IsCompleted-trans ok total total' rows rows' (finished t left) sum same (a, b) =
        (a ∙ sum, b ∙ same)

    update_in_batches-IsCompleted :
        (fuel : ℕ) (ok : ℕ → Bool) (batch_size total : ℕ) (rows : List A)
        → 0 < batch_size
        → matching test rows < fuel
        → IsCompleted ok total rows (update_in_batches fuel ok batch_size total rows)
    unfolding update_in_batches add_int IsCompleted
    update_in_batches-IsCompleted zero ok b total rows pos h = absurd (omega (arith, h))
    update_in_batches-IsCompleted (suc fuel) ok b total rows pos h =
        let (sum, most, done, same) = update_batch_lem b rows in
        elim (Bool-cases (ok total)) [
          | inr e ↦ rw e (e, refl, refl)
          | inl e ↦ elim (Bool-cases (ltb ((update_batch b rows).1) b)) [
            | inl l ↦
                let none_left = done (ground (arith, l)) in
                rw (e, l) (omega (arith, sum, none_left), sym (updated_none _ none_left) ∙ same)
            | inr l ↦
                let total' = add_int total ((update_batch b rows).1) in
                let rows' = (update_batch b rows).0 in
                let full : b ≤ (update_batch b rows).1 = ground (arith, l) in
                rw (e, l)
                  (IsCompleted-trans ok total total' rows rows' _ (omega (arith, sum)) same (
                    update_in_batches-IsCompleted fuel ok b total' rows' pos
                      (omega (arith, sum, most, full, pos, h))))
          ]
        ]

module _ {R : Type 0} (api_key_id key_name : Str) where
  abbrev pub belongs : RequestLog R → Bool
  belongs row = elim row.majordomo_api_key_id [ none ↦ false | some id ↦ id == api_key_id ]

  unfoldable pub awaits_backfill : RequestLog R → Bool
  awaits_backfill row =
      belongs row
      && (is_some (lookup key_name row.raw_metadata)
          && not (is_some (lookup key_name row.indexed_metadata)))

  unfoldable pub backfill_row : RequestLog R → RequestLog R
  backfill_row row = record row {
    indexed_metadata = elim (lookup key_name row.raw_metadata) [
      | none ↦ row.indexed_metadata
      | some value ↦ insert key_name value row.indexed_metadata
    ];
  }

  unfoldable pub awaits_cleanup : RequestLog R → Bool
  awaits_cleanup row = belongs row && is_some (lookup key_name row.indexed_metadata)

  unfoldable pub cleanup_row : RequestLog R → RequestLog R
  cleanup_row row = record row { indexed_metadata = delete key_name row.indexed_metadata }

  -- Both return the total with an error; `ok` says which batch the database takes.
  unfoldable pub backfill_indexed_metadata :
      ℕ → (ℕ → Bool) → ℕ → List (RequestLog R) → Batched (RequestLog R)
  backfill_indexed_metadata fuel ok batch_size rows =
      update_in_batches awaits_backfill backfill_row fuel ok batch_size 0 rows

  unfoldable pub cleanup_indexed_metadata :
      ℕ → (ℕ → Bool) → ℕ → List (RequestLog R) → Batched (RequestLog R)
  cleanup_indexed_metadata fuel ok batch_size rows =
      update_in_batches awaits_cleanup cleanup_row fuel ok batch_size 0 rows

  backfilled_once :
      (row : RequestLog R) → awaits_backfill row ≡ true → awaits_backfill (backfill_row row) ≡ false
  unfolding awaits_backfill backfill_row
  backfilled_once row h = elim (Option-cases (lookup key_name row.raw_metadata)) [
    | inl e ↦ rw e (ground arith)
    | inr (v, e) ↦
        rw e
          (ground (arith, lookup-insert key_name key_name v row.indexed_metadata, eq_refl key_name))
  ]

  cleaned_once :
      (row : RequestLog R) → awaits_cleanup row ≡ true → awaits_cleanup (cleanup_row row) ≡ false
  unfolding awaits_cleanup cleanup_row
  cleaned_once row h =
      ground (arith, lookup-delete key_name key_name row.indexed_metadata, eq_refl key_name)

  -- Backfilling and cleaning up a key in batches of at least one row, with more rounds than rows
  -- to change, end. If no batch fails, then exactly the rows that were to be changed are changed,
  -- each once, and their number is returned as a 64-bit integer. If one fails, then what is
  -- returned and the number of rows left to change add up to that number, and changing those too
  -- gives the same rows.
  pub index_batches-IsCompleted :
      (fuel : ℕ) (ok : ℕ → Bool) (batch_size : ℕ) (rows : List (RequestLog R))
      → 0 < batch_size
      → matching awaits_backfill rows < fuel
      → matching awaits_cleanup rows < fuel
      → IsCompleted awaits_backfill backfill_row ok 0 rows
          (backfill_indexed_metadata fuel ok batch_size rows)
        × IsCompleted awaits_cleanup cleanup_row ok 0 rows
            (cleanup_indexed_metadata fuel ok batch_size rows)
  unfolding backfill_indexed_metadata cleanup_indexed_metadata
  index_batches-IsCompleted fuel ok b rows pos h k = (
    update_in_batches-IsCompleted awaits_backfill backfill_row backfilled_once fuel ok b 0 rows pos
        h,
    update_in_batches-IsCompleted awaits_cleanup cleanup_row cleaned_once fuel ok b 0 rows pos k,
  )
