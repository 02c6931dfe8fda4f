-- ===== src/Keys/Laws.antt =====
-- The life of an API key, as the resolver sees it.
use majordomo_gateway.Base.{
  ℕ, ◌≡◌, ◌∙◌, ap, refl, sym, Bool, true, false, not, ◌&&◌, Bool-cases, inl, inr, Option, none,
  some, List, [], ◌∷◌, ◌++◌, if◌then◌else◌, Str, ◌==◌, eq_refl, eq_iff, is_empty, is_some, length,
  length-append, leb, arith, ◌>>=◌, option_clash, some_injective, Option-cases, lit,
}
use majordomo_gateway.Auth.{
  Lru, CachedKey, Resolved, resolved, refused, api_key_revoked, api_key_inactive, info_of,
  get_from_cache, resolve_api_key, resolve_found,
}
use majordomo_gateway.Base.{has_prefix_self, has_prefix_of_append, bool_clash, ◌⊎◌}
use majordomo_gateway.Credentials.{trim_space}
use majordomo_gateway.Keys.{
  KeyRow, find_hash, as_api_key, get_api_key_by_hash, update_rows, revoked, is_revocable,
  revoke_handler, revoke_api_key, key_prefix, validate_key_format, create_handler, create_key,
  create_api_key, generate_api_key,
}

module _ (test : KeyRow → Bool) (change : KeyRow → KeyRow)
    (same_hash : (row : KeyRow) → (change row).key_hash ≡ row.key_hash) where
  find_hash-update_rows :
      (hash : Str) (table : List KeyRow)
      → find_hash hash (update_rows test change table).0
        ≡ (find_hash hash table >>= (λ row. some (if test row then change row else row)))
  unfolding find_hash update_rows
  find_hash-update_rows hash [] = refl
  find_hash-update_rows hash (row ∷ table) = elim (Bool-cases (test row)) [
    | inl e ↦ elim (Bool-cases (row.key_hash == hash)) [
      | inl h ↦
          let same : ((change row).key_hash == hash) ≡ true =
            ap (λ k. k == hash) (same_hash row) ∙ h in
          rw (e, same, h, e) refl
      | inr h ↦
          let differs : ((change row).key_hash == hash) ≡ false =
            ap (λ k. k == hash) (same_hash row) ∙ h in
          rw (e, differs, h) (find_hash-update_rows hash table)
    ]
    | inr e ↦ elim (Bool-cases (row.key_hash == hash)) [
      | inl h ↦ rw (e, h, e) refl
      | inr h ↦ rw (e, h) (find_hash-update_rows hash table)
    ]
  ]

  update_rows_any :
      (hash : Str) (row : KeyRow) (table : List KeyRow)
      → find_hash hash table ≡ some row
      → test row ≡ true
      → (update_rows test change table).1 ≡ true
  unfolding find_hash update_rows
  update_rows_any hash row [] e t = absurd (option_clash e)
  update_rows_any hash row (r ∷ table) e t = elim (Bool-cases (test r)) [
    | inl a ↦ rw a refl
    | inr a ↦ elim (Bool-cases (r.key_hash == hash)) [
      | inl h ↦
          let clash : true ≡ false = sym t ∙ ap test (sym (some_injective (rw h at e))) ∙ a in cc
      | inr h ↦ rw a (update_rows_any hash row table (rw h at e) t)
    ]
  ]

find_hash-append :
    (row : KeyRow) (other : Str) (table : List KeyRow)
    → find_hash row.key_hash table ≡ none
    → find_hash other (table ++ row ∷ [])
      ≡ (if row.key_hash == other then some row else find_hash other table)
unfolding find_hash
find_hash-append row other [] h = refl
find_hash-append row other (r ∷ table) h = ground (
  arith,
  eq_iff r.key_hash row.key_hash,
  eq_iff r.key_hash other,
  eq_iff row.key_hash other,
  find_hash-append row other table,
)

not_found_before :
    (hash : Str) (ok : Bool) (table : List KeyRow)
    → (ok && not (is_some (find_hash hash table))) ≡ true
    → find_hash hash table ≡ none
not_found_before hash ok table h = elim (Option-cases (find_hash hash table)) [
  | inl e ↦ e
  | inr (row, e) ↦ ground (arith, e, h)
]

validate_key_format-append :
    (s : Str) → is_empty s ≡ false → validate_key_format (key_prefix ++ s) ≡ true
unfolding validate_key_format
validate_key_format-append [] h = absurd (bool_clash (sym h))
validate_key_format-append (c ∷ s) h =
    let long : leb (length (key_prefix ++ c ∷ s)) (length key_prefix) ≡ false =
      ground (arith, length-append key_prefix (c ∷ s)) in
    rw long (
      has_prefix_of_append (key_prefix ++ c ∷ s) key_prefix (c ∷ s)
        (has_prefix_self (key_prefix ++ c ∷ s)))

is_empty-append : (s : Str) → is_empty (key_prefix ++ s) ≡ false
unfolding lit
is_empty-append s = refl

module _ (L : Lru) (hash_api_key : Str → Str) where
  -- What a key is answered by, where the cache has `cached` and the database's answer is not needed, or
  -- else gives `answer`.
  abbrev pub by_cache : Option CachedKey → Resolved → Resolved
  by_cache cached answer = elim cached [
    | none ↦ answer
    | some entry ↦ if entry.is_valid then resolved entry.info else refused api_key_inactive
  ]

  resolve_found_at :
      (api_key : Str) (now later : ℕ) (row : KeyRow) (table : List KeyRow) (c : L.Cache)
      → is_empty api_key ≡ false
      → find_hash (hash_api_key api_key) table ≡ some row
      → (resolve_api_key L hash_api_key api_key now later (get_api_key_by_hash true table) c).1
        ≡ by_cache (get_from_cache L (hash_api_key api_key) now c).1 (
            if row.is_active
            then resolved (some (info_of (hash_api_key api_key) (as_api_key row)))
            else refused (if is_some row.revoked_at then api_key_revoked else api_key_inactive))
  unfolding resolve_api_key get_api_key_by_hash resolve_found
  resolve_found_at api_key now later row table c h e =
      let hash = hash_api_key api_key in
      elim (Option-cases (get_from_cache L hash now c).1) [
        | inr (entry, f) ↦ rw (h, f) refl
        | inl f ↦ elim (Bool-cases row.is_active) [
          | inl a ↦ rw (h, f, e, a) refl
          | inr a ↦ rw (h, f, e, a) refl
        ]
      ]

  -- An active key that is revoked is refused as revoked from then on, unless the cache of the resolver
  -- still answers for it: Revoke leaves that alone. The rows of all other hashes are what they were,
  -- but for that of a row with the same id.
  pub revoke_handler-resolve_api_key :
      (api_key id other : Str) (now t later : ℕ) (row : KeyRow) (table : List KeyRow) (c : L.Cache)
      → is_empty api_key ≡ false
      → find_hash (hash_api_key api_key) table ≡ some row
      → row.is_active ≡ true
      → (row.id == id) ≡ true
      → let answer = revoke_handler true now (some id) table in
        (answer.1 ≡ 204)
        × ((resolve_api_key L hash_api_key api_key t later (get_api_key_by_hash true answer.0) c).1
            ≡ by_cache (get_from_cache L (hash_api_key api_key) t c).1 (refused api_key_revoked))
        × (find_hash other answer.0 ≡ (
            find_hash other table >>= (λ r. some (if is_revocable id r then revoked now r else r))))
  unfolding revoke_handler revoke_api_key revoked
  revoke_handler-resolve_api_key api_key id other now t later row table c full e active same =
      let hash = hash_api_key api_key in
      let revocable : is_revocable id row ≡ true = rw (same, active) refl in
      let any =
        update_rows_any (is_revocable id) (revoked now) (λ r. refl) hash row table e revocable in
      let at = find_hash-update_rows (is_revocable id) (revoked now) (λ r. refl) in
      (
        rw (any, revoke_handler) refl,
        resolve_found_at api_key t later (revoked now row) _ c full
            (at hash table ∙ rw (e, revocable) refl),
        at other table,
      )

  -- A key that is created has the format of keys, and the resolver answers for it with the id and the
  -- name of the new row, unless its cache answers; of the other rows none changes. Where the answer is
  -- 400 or 500, nothing is created and no key is told. Base64 of the random bytes is not empty.
  pub create_handler-resolve_api_key :
      (encode : Str → Str) (bytes id name other : Str) (description : Option Str) (ok : Bool)
      (now t later : ℕ) (table : List KeyRow) (c : L.Cache)
      → is_empty (encode bytes) ≡ false
      → let answer =
          create_handler hash_api_key encode
            (some bytes)
            ok
            id
            now
            (some (name, description))
            table in
        ((row : KeyRow) × (plaintext : Str) × (answer.1 ≡ (201, some (row, plaintext)))
          × (validate_key_format plaintext ≡ true)
          × ((row.id ≡ id) × (row.name ≡ trim_space name))
          × ((resolve_api_key L hash_api_key plaintext t later
                (get_api_key_by_hash true answer.0)
                c).1
              ≡ by_cache
                  (get_from_cache L (hash_api_key plaintext) t c).1
                  (resolved (some (info_of (hash_api_key plaintext) (as_api_key row)))))
          × (find_hash other answer.0
              ≡ (if hash_api_key plaintext == other then some row else find_hash other table)))
        ⊎ (((answer.1 ≡ (400, none)) ⊎ (answer.1 ≡ (500, none))) × (answer.0 ≡ table))
  unfolding create_handler create_key generate_api_key create_api_key
  create_handler-resolve_api_key encode bytes id name other description ok now t later table c
        full =
      let plaintext = key_prefix ++ encode bytes in
      let hash = hash_api_key plaintext in
      let row : KeyRow = record {
        id = id;
        key_hash = hash;
        name = trim_space name;
        description = description;
        is_active = true;
        created_at = now;
        revoked_at = none;
        last_used_at = none;
        request_count = 0;
        deprecated_model_behavior = lit "passthrough";
      } in
      elim (Bool-cases (is_empty (trim_space name))) [
        | inl e ↦ rw e (inr (inl refl, refl))
        | inr e ↦ elim (Bool-cases (ok && not (is_some (find_hash hash table)))) [
          | inr f ↦ rw (e, f) (inr (inr refl, refl))
          | inl f ↦
              let missing = not_found_before hash ok table f in
              rw (e, f)
                (inl (
                  row,
                  plaintext,
                  refl,
                  validate_key_format-append (encode bytes) full,
                  (refl, refl),
                  resolve_found_at plaintext t later row (table ++ row ∷ []) c
                      (is_empty-append (encode bytes))
                      (find_hash-append row hash table missing ∙ rw (eq_refl hash) refl),
                  find_hash-append row other table missing,
                ))
        ]
      ]
