-- ===== src/Metadata/Activation/Laws.antt =====
-- What an activation or a deactivation of a metadata key does to the cache of active keys and the logs.
use majordomo_gateway.Base.{
  ℕ, ◌+◌, ◌<◌, ltb, lookup-insert, ◌≡◌, ◌⊎◌, ◌∙◌, ap, refl, inl, inr, Bool, true, false, Bool-cases,
  ◌&&◌, Option, none, some, List, [], ◌∷◌, if◌then◌else◌, Str, ◌==◌, eq_iff, is_empty, Dict, lookup,
  delete, lookup-delete, arith, eq_refl,
}
use majordomo_gateway.Metadata.{
  ActiveKeysEntry, cached_keys, store_keys, get_active_keys, invalidate_api_key,
}
use majordomo_gateway.Metadata.Batches.{
  matching, IsCompleted, awaits_backfill, backfill_row, awaits_cleanup, cleanup_row,
  index_batches-IsCompleted,
}
use majordomo_gateway.Metadata.Activation.{
  MetadataRow, is_row, update_key, active_of, activated, set_active, changed, missing,
  nothing_started, backfill_batch_size, work, started_by, change_key, status_of_change,
  change_handler,
}
use majordomo_gateway.Logs.Types.{RequestLog}
use majordomo_gateway.Logs.Writer.{is_active_key}

is_active_key-update_key :
    (on : Bool) (now : ℕ) (id name other : Str) (table : List MetadataRow)
    → let updated = update_key (activated on now) id name table in
      is_active_key (active_of id updated.0) other
      ≡ (if name == other then on && updated.1 else is_active_key (active_of id table) other)
unfolding update_key is_row activated active_of is_active_key
is_active_key-update_key on now id name other [] = ground arith
is_active_key-update_key on now id name other (row ∷ table) = ground (
  arith,
  eq_iff row.key_name name,
  eq_iff row.key_name other,
  eq_iff name other,
  is_active_key-update_key on now id name other table,
)

set_active_changed :
    (on : Bool) (now : ℕ) (id name : Str) (table : List MetadataRow) (cache : Dict ActiveKeysEntry)
    → (update_key (activated on now) id name table).1 ≡ true
    → set_active on true now id name table cache
      ≡ ((update_key (activated on now) id name table).0, delete id cache, changed)
unfolding set_active invalidate_api_key
set_active_changed on now id name table cache any = rw (any, set_active) refl

set_active_missing :
    (on : Bool) (now : ℕ) (id name : Str) (table : List MetadataRow) (cache : Dict ActiveKeysEntry)
    → (update_key (activated on now) id name table).1 ≡ false
    → set_active on true now id name table cache
      ≡ ((update_key (activated on now) id name table).0, cache, missing)
unfolding set_active
set_active_missing on now id name table cache any = rw (any, set_active) refl

and_true : (on any : Bool) → any ≡ true → (on && any) ≡ on
and_true on any h = ground arith

is_active_key-changed :
    (on : Bool) (now : ℕ) (id name other : Str) (table : List MetadataRow)
    → (update_key (activated on now) id name table).1 ≡ true
    → is_active_key (active_of id (update_key (activated on now) id name table).0) other
      ≡ (if name == other then on else is_active_key (active_of id table) other)
is_active_key-changed on now id name other table there =
    is_active_key-update_key on now id name other table
    ∙ ap (λ b. if name == other then b else is_active_key (active_of id table) other)
        (and_true on _ there)

fetched_anew :
    (ttl t later : ℕ) (fetch : Str → Option (List Str)) (id : Str) (active : List Str)
    (cache : Dict ActiveKeysEntry)
    → fetch id ≡ some active
    → (get_active_keys ttl t later fetch id (delete id cache)).1 ≡ some active
unfolding get_active_keys
fetched_anew ttl t later fetch id active cache h =
    rw (lookup-delete id id cache, eq_refl id, h, get_active_keys, cached_keys) refl

-- What the background work that an activation or a deactivation starts does to the logs.
started_by-IsCompleted :
    {R : Type 0} (on : Bool) (id name : Str) (fuel : ℕ) (takes : ℕ → Bool)
    (logs : List (RequestLog R))
    → matching (awaits_backfill id name) logs < fuel
    → matching (awaits_cleanup id name) logs < fuel
    → let done = work (started_by on id name changed) fuel takes logs in
      if on
      then IsCompleted (awaits_backfill id name) (backfill_row id name) takes 0 logs done
      else IsCompleted (awaits_cleanup id name) (cleanup_row id name) takes 0 logs done
unfolding started_by work
started_by-IsCompleted true id name fuel takes logs h k =
    (index_batches-IsCompleted id name fuel takes backfill_batch_size logs (omega arith) h k).0
started_by-IsCompleted false id name fuel takes logs h k =
    (index_batches-IsCompleted id name fuel takes backfill_batch_size logs (omega arith) h k).1

-- An activation or a deactivation whose body can be decoded, with an id that is one, is answered by 200,
-- 404, 400 or 500. After 200, a look at the cache
-- of active keys that begins then, at whatever time, finds the key active or not, as it was asked for,
-- and every other key of the API key as the rows have it, as long as no look that was under way before
-- stores its keys; and the entries of other API keys stay. What is started after 200 is the backfill of
-- this key where it was activated, and else its cleanup: run on any logs, with more rounds than there
-- are logs to change, it ends, and if no batch fails, exactly the logs of this API key that lack the key
-- in their index though they have it, or that have it in their index, are changed. Any other answer
-- starts nothing and leaves the cache alone, and 400 and 500 leave the rows alone.
pub change_handler-get_active_keys :
    {R : Type 0} (on ok : Bool) (now ttl t later : ℕ) (id name other other_id : Str)
    (table : List MetadataRow) (cache : Dict ActiveKeysEntry) (fuel : ℕ) (takes : ℕ → Bool)
    (logs : List (RequestLog R))
    → matching (awaits_backfill id name) logs < fuel
    → matching (awaits_cleanup id name) logs < fuel
    → let (rows, cache', status, started) =
        change_handler on ok now (some (some id, name)) table cache in
      let active = active_of id rows in
      let done = work started fuel takes logs in
      ((status ≡ 200)
        × (if on
            then IsCompleted (awaits_backfill id name) (backfill_row id name) takes 0 logs done
            else IsCompleted (awaits_cleanup id name) (cleanup_row id name) takes 0 logs done)
        × ((get_active_keys ttl t later (λ k. some (active_of k rows)) id cache').1 ≡ some active)
        × (is_active_key active other
            ≡ (if name == other then on else is_active_key (active_of id table) other))
        × (lookup other_id cache' ≡ (if id == other_id then none else lookup other_id cache)))
      ⊎ ((started ≡ nothing_started)
          × (cache' ≡ cache)
          × ((status ≡ 404) ⊎ (((status ≡ 400) ⊎ (status ≡ 500)) × (rows ≡ table))))
unfolding change_handler change_key started_by status_of_change
change_handler-get_active_keys on false now ttl t later id name other other_id table cache fuel
      takes logs h k =
    elim (Bool-cases (is_empty name)) [
      | inl e ↦ rw e (inr (refl, refl, inr (inl refl, refl)))
      | inr e ↦ rw (e, set_active) (inr (refl, refl, inr (inr refl, refl)))
    ]
change_handler-get_active_keys on true now ttl t later id name other other_id table cache fuel takes
      logs h k =
    let (rows, any) = update_key (activated on now) id name table in
    elim (Bool-cases (is_empty name)) [
      | inl e ↦ rw e (inr (refl, refl, inr (inl refl, refl)))
      | inr e ↦ elim (Bool-cases any) [
        | inr none_there ↦
            rw (e, set_active_missing on now id name table cache none_there)
              (inr (refl, refl, inl refl))
        | inl there ↦
            rw (e, set_active_changed on now id name table cache there)
              (inl (
                refl,
                started_by-IsCompleted on id name fuel takes logs h k,
                fetched_anew ttl t later (λ k. some (active_of k rows)) id (active_of id rows) cache
                    refl,
                is_active_key-changed on now id name other table there,
                lookup-delete id other_id cache,
              ))
      ]
    ]

-- A look that was under way: the keys that it fetched before are stored behind the invalidation, and
-- are found until they expire.
stored_late :
    (ttl now later : ℕ) (id : Str) (old : List Str) (cache : Dict ActiveKeysEntry)
    → now < later + ttl
    → cached_keys now id (store_keys ttl later id old (invalidate_api_key id cache)) ≡ some old
unfolding cached_keys store_keys
stored_late ttl now later id old cache h =
    let fresh : ltb now (later + ttl) ≡ true = ground (arith, h) in
    rw
      (
        lookup-insert id id (record { keys = old; expires_at = later + ttl })
            (invalidate_api_key id cache),
        eq_refl id,
        cached_keys,
        fresh,
      )
      refl
