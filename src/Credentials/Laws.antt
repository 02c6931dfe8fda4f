-- ===== src/Credentials/Laws.antt =====
-- What a stored credential is for a routed request.
use majordomo_gateway.Base.{
  ℕ, ◌≡◌, refl, ◌⊎◌, inl, inr, Bool, true, false, Bool-cases, Option, none, some, List, [], ◌∷◌,
  ◌++◌, if◌then◌else◌, Str, Dict, lookup, insert, delete, lookup-insert, lookup-delete, is_empty,
  is_some, take, drop, length, length-append, to_lower, arith, ◌==◌, ltb, ap,
}
use majordomo_gateway.Provider.Names.{is_credential_provider}
use majordomo_gateway.Credentials.{
  Crypto, CryptoLaws, encrypt, decrypt, is_aes_key, of_32_bytes, or_try, new_aes_store, StoredKey,
  upsert_handler, trim_space, stored_status, upsert, get_key, resolve_routed_credential, succeeded,
  has_key, upsert_key, delete_handler, delete_key, deleted_status, errored, key_not_found,
}
use mathlib.Core.Path.{subst}
use majordomo_gateway.Base.{ap, option_clash, ◌||◌, All}

module _ {A : Type 0} where
  take-append : (xs ys : List A) → take (length xs) (xs ++ ys) ≡ xs
  take-append [] ys = refl
  take-append (x ∷ xs) ys = ap (λ l. x ∷ l) (take-append xs ys)

  drop-append : (xs ys : List A) → drop (length xs) (xs ++ ys) ≡ ys
  drop-append [] ys = refl
  drop-append (x ∷ xs) ys = drop-append xs ys

module _ (C : Crypto) (laws : CryptoLaws C) where
  encrypt-some :
      (key n plaintext : Str)
      → length key ≡ 32
      → encrypt C key (some n) plaintext ≡ some (C.encode_base64 (n ++ C.seal key n plaintext))
  unfolding encrypt is_aes_key
  encrypt-some key n plaintext k = rw k refl

  decrypt-encoded :
      (key n plaintext : Str)
      → length key ≡ 32
      → length n ≡ 12
      → decrypt C key (C.encode_base64 (n ++ C.seal key n plaintext)) ≡ some plaintext
  unfolding decrypt is_aes_key
  decrypt-encoded key n plaintext k e =
      let sealed = C.seal key n plaintext in
      let long : ltb (length (n ++ sealed)) 12 ≡ false =
        ground (arith, length-append n sealed, e) in
      let first : take 12 (n ++ sealed) ≡ n =
        subst (λ m. take m (n ++ sealed) ≡ n) e (take-append n sealed) in
      let rest : drop 12 (n ++ sealed) ≡ sealed =
        subst (λ m. drop m (n ++ sealed) ≡ sealed) e (drop-append n sealed) in
      rw (laws.decode-encode (n ++ sealed), k, long, first, rest)
        (laws.open_sealed-seal key n plaintext)

  or_try-cases :
      (a b : Option Str) (key : Str) → or_try a b ≡ some key → (a ≡ some key) ⊎ (b ≡ some key)
  unfolding or_try
  or_try-cases none b key h = inr h
  or_try-cases (some a) b key h = inl h

  of_32_bytes-length : (o : Option Str) (key : Str) → of_32_bytes o ≡ some key → length key ≡ 32
  unfolding of_32_bytes
  of_32_bytes-length none key h = absurd (option_clash h)
  of_32_bytes-length (some k) key h = ground arith

  new_aes_store-length : (text key : Str) → new_aes_store C text ≡ some key → length key ≡ 32
  unfolding new_aes_store
  new_aes_store-length text key h =
      let hex = of_32_bytes (C.decode_hex text) in
      let padded = of_32_bytes (C.decode_base64 text) in
      let raw = of_32_bytes (C.decode_raw_base64 text) in
      let is_32 : All (λ o. o ≡ some key → length key ≡ 32) (hex ∷ padded ∷ raw ∷ []) = (
        of_32_bytes-length (C.decode_hex text) key,
        (
          of_32_bytes-length (C.decode_base64 text) key,
          (of_32_bytes-length (C.decode_raw_base64 text) key, tt),
        ),
      ) in
      elim (Bool-cases (is_empty text)) [
        | inl e ↦ absurd (option_clash (rw e at h))
        | inr e ↦ elim (or_try-cases hex (or_try padded raw) key (rw e at h)) [
          | inl a ↦ (is_32.0) a
          | inr b ↦ elim (or_try-cases padded raw key b) [
            | inl a ↦ (is_32.1.0) a
            | inr c ↦ (is_32.1.1.0) c
          ]
        ]
      ]

  resolve-insert :
      (key provider secret other : Str) (row : StoredKey) (table : Dict StoredKey)
      → decrypt C key row.encrypted_key ≡ some secret
      → resolve_routed_credential C (some key) true other (insert provider row table) ≡ (
          if provider == other
          then succeeded secret
          else resolve_routed_credential C (some key) true other table)
  unfolding resolve_routed_credential get_key
  resolve-insert key provider secret other row table h = elim (Bool-cases (provider == other)) [
    | inl same ↦
        rw (same, lookup-insert provider other row table, same, h, resolve_routed_credential) refl
    | inr differs ↦
        rw (differs, lookup-insert provider other row table, differs, resolve_routed_credential)
          refl
  ]

  has_key-insert :
      (provider other : Str) (row : StoredKey) (table : Dict StoredKey)
      → has_key true other (insert provider row table)
        ≡ (if provider == other then some true else has_key true other table)
  unfolding has_key
  has_key-insert provider other row table =
      rw (lookup-insert provider other row table) (elim (Bool-cases (provider == other)) [
        | inl same ↦ rw same refl
        | inr differs ↦ rw differs refl
      ])

  -- The answer to a key for a provider, both without white space.
  stored :
      (key nonce : Str) (ok : Bool) (now : ℕ) (provider secret other : Str) (table : Dict StoredKey)
      → length key ≡ 32
      → length nonce ≡ 12
      → let answer =
          stored_status table (upsert_key C key (some nonce) ok now provider secret table) in
        ((answer.0 ≡ 201)
          × (is_credential_provider provider ≡ true)
          × (resolve_routed_credential C (some key) true other answer.1 ≡ (
              if provider == other
              then succeeded secret
              else resolve_routed_credential C (some key) true other table))
          × (has_key true other answer.1
              ≡ (if provider == other then some true else has_key true other table)))
        ⊎ (((answer.0 ≡ 400) ⊎ (answer.0 ≡ 500)) × (answer.1 ≡ table))
  unfolding upsert_key stored_status upsert resolve_routed_credential has_key get_key
  stored key nonce false now provider secret other table k size =
      elim (Bool-cases (is_credential_provider provider)) [
        | inr e ↦ rw e (inr (inl refl, refl))
        | inl e ↦ rw (e, encrypt-some key nonce secret k) (inr (inr refl, refl))
      ]
  stored key nonce true now provider secret other table k size =
      elim (Bool-cases (is_credential_provider provider)) [
        | inr e ↦ rw e (inr (inl refl, refl))
        | inl e ↦
            rw (e, encrypt-some key nonce secret k)
              (inl (
                refl,
                refl,
                resolve-insert key provider secret other _ table
                    (decrypt-encoded key nonce secret k size),
                has_key-insert provider other _ table,
              ))
      ]

  -- A key that is posted is stored or nothing changes. It is stored for a provider that takes
  -- credentials, and then a routed request to that provider gets it, without the white space around
  -- it, and the router finds the provider to have a credential; for every other provider both are what
  -- they were. A status of 400 or 500 tells the client that nothing was stored.
  pub upsert_handler-resolve_routed_credential :
      (text key nonce : Str) (ok : Bool) (now : ℕ) (name secret other : Str)
      (table : Dict StoredKey)
      → new_aes_store C text ≡ some key
      → length nonce ≡ 12
      → let answer = upsert_handler C key (some nonce) ok now (some (name, secret)) table in
        let provider = to_lower (trim_space name) in
        ((answer.0 ≡ 201)
          × (is_credential_provider provider ≡ true)
          × (resolve_routed_credential C (some key) true other answer.1 ≡ (
              if provider == other
              then succeeded (trim_space secret)
              else resolve_routed_credential C (some key) true other table))
          × (has_key true other answer.1
              ≡ (if provider == other then some true else has_key true other table)))
        ⊎ (((answer.0 ≡ 400) ⊎ (answer.0 ≡ 500)) × (answer.1 ≡ table))
  unfolding upsert_handler
  upsert_handler-resolve_routed_credential text key nonce ok now name secret other table made size =
      let provider = to_lower (trim_space name) in
      let k = new_aes_store-length text key made in
      elim (Bool-cases (is_empty provider || is_empty (trim_space secret))) [
        | inl e ↦ rw e (inr (inl refl, refl))
        | inr e ↦ rw e (stored key nonce ok now provider (trim_space secret) other table k size)
      ]

  resolve-delete :
      (key provider other : Str) (table : Dict StoredKey)
      → resolve_routed_credential C (some key) true other (delete provider table) ≡ (
          if provider == other
          then errored key_not_found
          else resolve_routed_credential C (some key) true other table)
  unfolding resolve_routed_credential get_key
  resolve-delete key provider other table = elim (Bool-cases (provider == other)) [
    | inl same ↦ rw (same, lookup-delete provider other table, same, resolve_routed_credential) refl
    | inr differs ↦
        rw (differs, lookup-delete provider other table, differs, resolve_routed_credential) refl
  ]

  -- A credential that is deleted is not found by a routed request from then on, and every other one is
  -- what it was. A status of 404 tells that there is none for the provider, and like 400 and 500 that
  -- nothing was deleted.
  delete_handler-resolve_routed_credential :
      (key : Str) (ok : Bool) (name other : Str) (table : Dict StoredKey)
      → let answer = delete_handler ok name table in
        let provider = to_lower (trim_space name) in
        ((answer.0 ≡ 204)
          × (resolve_routed_credential C (some key) true other answer.1 ≡ (
              if provider == other
              then errored key_not_found
              else resolve_routed_credential C (some key) true other table)))
        ⊎ (((answer.0 ≡ 404) × (has_key true provider table ≡ some false) × (answer.1 ≡ table))
            ⊎ (((answer.0 ≡ 400) ⊎ (answer.0 ≡ 500)) × (answer.1 ≡ table)))
  unfolding delete_handler delete_key deleted_status has_key
  delete_handler-resolve_routed_credential key false name other table =
      elim (Bool-cases (is_empty (to_lower (trim_space name)))) [
        | inl e ↦ rw e (inr (inr (inl refl, refl)))
        | inr e ↦ rw e (inr (inr (inr refl, refl)))
      ]
  delete_handler-resolve_routed_credential key true name other table =
      let provider = to_lower (trim_space name) in
      elim (Bool-cases (is_empty provider)) [
        | inl e ↦ rw e (inr (inr (inl refl, refl)))
        | inr e ↦ elim (Bool-cases (is_some (lookup provider table))) [
          | inl there ↦ rw (e, there) (inl (refl, resolve-delete key provider other table))
          | inr missing ↦ rw (e, missing) (inr (inl (refl, refl, refl)))
        ]
      ]
