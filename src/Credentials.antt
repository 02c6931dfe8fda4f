-- ===== src/Credentials.antt =====
-- The stored credentials of providers: AESStore of internal/secrets/aes.go,
-- internal/repositories/provider_keys.go, internal/services/provider_key_service.go, the handlers of
-- internal/controllers/provider_keys_controller.go, and resolveRoutedCredential of
-- internal/proxy/handler.go.
pub mod Laws
use majordomo_gateway.Base.{
  ℕ, Bool, true, false, not, ◌||◌, Option, none, some, List, [], ◌∷◌, ◌++◌, map, if◌then◌else◌, Str,
  Dict, lookup, insert, delete, is_empty, is_some, take, drop, length, eqb, ltb, to_lower, ◌>>=◌,
  ◌≡◌, sort_by, str_lt,
}
use majordomo_gateway.Provider.Names.{is_credential_provider}
use majordomo_gateway.Proxy.Headers.{trim_left, trim_right}

-- What is used of crypto/cipher, encoding/hex and encoding/base64: a cipher that authenticates, and the
-- decoders, which give nothing for a text that is not well formed.
pub record Crypto : Type 0 where
  pub seal : Str → Str → Str → Str
  pub open_sealed : Str → Str → Str → Option Str
  pub encode_base64 : Str → Str
  pub decode_base64 : Str → Option Str
  pub decode_raw_base64 : Str → Option Str
  pub decode_hex : Str → Option Str

-- What their documentation says.
pub record CryptoLaws (C : Crypto) : Type 0 where
  pub open_sealed-seal :
      (key nonce plaintext : Str)
      → C.open_sealed key nonce (C.seal key nonce plaintext) ≡ some plaintext
  pub decode-encode : (s : Str) → C.decode_base64 (C.encode_base64 s) ≡ some s

-- gcm.NonceSize()
abbrev pub nonce_size : ℕ
nonce_size = 12

-- err != nil || len(keyBytes) != 32
unfoldable pub of_32_bytes : Option Str → Option Str
of_32_bytes key = key >>= (λ k. if eqb (length k) 32 then some k else none)

unfoldable pub or_try : Option Str → Option Str → Option Str
or_try none other = other
or_try (some key) other = some key

-- aes.NewCipher takes keys of three lengths.
unfoldable pub is_aes_key : Str → Bool
is_aes_key key = eqb (length key) 16 || (eqb (length key) 24 || eqb (length key) 32)

-- ProviderAPIKey, without its id and its provider
pub record StoredKey : Type 0 where
  pub encrypted_key : Str
  pub created_at : ℕ
  pub updated_at : ℕ

pub data CredentialError : Type 0 where
  unknown_provider encrypt_failed storage_failed key_not_found decrypt_failed not_configured :
      CredentialError

pub data Attempt (A : Type 0) : Type 0 where
  succeeded : A → Attempt A
  errored : CredentialError → Attempt A

-- The repository over the rows by provider; `ok` says whether the database runs the statement.
unfoldable pub upsert : Bool → ℕ → Str → Str → Dict StoredKey → Attempt (Dict StoredKey)
upsert ok now provider encrypted table =
    let created : ℕ = elim (lookup provider table) [ none ↦ now | some row ↦ row.created_at ] in
    if ok
    then succeeded (
        insert provider
          (record { encrypted_key = encrypted; created_at = created; updated_at = now }) table)
    else errored storage_failed

unfoldable pub has_key : Bool → Str → Dict StoredKey → Option Bool
has_key ok provider table = if ok then some (is_some (lookup provider table)) else none

unfoldable pub get_key : Bool → Str → Dict StoredKey → Attempt StoredKey
get_key ok provider table =
    if ok
    then elim (lookup provider table) [ none ↦ errored key_not_found | some row ↦ succeeded row ]
    else errored storage_failed

-- List: the providers with the times, in the order of their names.
unfoldable pub list_keys : Bool → Dict StoredKey → Option (List (Str × ℕ))
unfolding sort_by
list_keys ok table =
    if ok
    then some (sort_by (λ a b. str_lt (a.0) (b.0)) (map (λ e. (e.0, e.1.created_at)) table))
    else none

unfoldable pub delete_key : Bool → Str → Dict StoredKey → Attempt (Dict StoredKey)
delete_key ok provider table =
    if ok
    then if is_some (lookup provider table)
      then succeeded (delete provider table)
      else errored key_not_found
    else errored storage_failed

-- strings.TrimSpace
abbrev pub trim_space : Str → Str
trim_space s = trim_right (trim_left s)

unfoldable pub stored_status : Dict StoredKey → Attempt (Dict StoredKey) → ℕ × Dict StoredKey
stored_status table (succeeded t) = (201, t)
stored_status table (errored unknown_provider) = (400, table)
stored_status table (errored e) = (500, table)

unfoldable pub deleted_status : Dict StoredKey → Attempt (Dict StoredKey) → ℕ × Dict StoredKey
deleted_status table (succeeded t) = (204, t)
deleted_status table (errored key_not_found) = (404, table)
deleted_status table (errored e) = (500, table)

-- Delete of the controller
unfoldable pub delete_handler : Bool → Str → Dict StoredKey → ℕ × Dict StoredKey
unfolding delete_key deleted_status trim_left trim_right to_lower
delete_handler ok name table =
    let provider = to_lower (trim_space name) in
    if is_empty provider then (400, table) else deleted_status table (delete_key ok provider table)

module _ (C : Crypto) where
  unfoldable pub new_aes_store : Str → Option Str
  unfolding of_32_bytes or_try
  new_aes_store key =
      if is_empty key
      then none
      else or_try (of_32_bytes (C.decode_hex key))
          (or_try (of_32_bytes (C.decode_base64 key)) (of_32_bytes (C.decode_raw_base64 key)))

  -- Encrypt; there is no nonce where the random source fails.
  unfoldable pub encrypt : Str → Option Str → Str → Option Str
  unfolding is_aes_key
  encrypt key nonce plaintext =
      if is_aes_key key
      then nonce >>= (λ n. some (C.encode_base64 (n ++ C.seal key n plaintext)))
      else none

  unfoldable pub decrypt : Str → Str → Option Str
  unfolding is_aes_key
  decrypt key ciphertext = C.decode_base64 ciphertext >>= (λ bytes.
      if not (is_aes_key key) || ltb (length bytes) nonce_size
      then none
      else C.open_sealed key (take nonce_size bytes) (drop nonce_size bytes))

  -- UpsertKey of the service
  unfoldable pub upsert_key :
      Str → Option Str → Bool → ℕ → Str → Str → Dict StoredKey → Attempt (Dict StoredKey)
  unfolding encrypt upsert
  upsert_key key nonce ok now provider plaintext table =
      if is_credential_provider provider
      then elim (encrypt key nonce plaintext) [
        | none ↦ errored encrypt_failed
        | some encrypted ↦ upsert ok now provider encrypted table
      ]
      else errored unknown_provider

  -- resolveRoutedCredential; the key is there where the handler has a store.
  unfoldable pub resolve_routed_credential : Option Str → Bool → Str → Dict StoredKey → Attempt Str
  unfolding get_key decrypt
  resolve_routed_credential store ok provider table = elim store [
    | none ↦ errored not_configured
    | some key ↦ elim (get_key ok provider table) [
      | errored e ↦ errored e
      | succeeded row ↦ elim (decrypt key row.encrypted_key) [
        | none ↦ errored decrypt_failed
        | some plaintext ↦ succeeded plaintext
      ]
    ]
  ]

  -- Upsert of the controller: the status, and the rows behind it. A body that cannot be decoded is `none`.
  unfoldable pub upsert_handler :
      Str → Option Str → Bool → ℕ → Option (Str × Str) → Dict StoredKey → ℕ × Dict StoredKey
  unfolding upsert_key stored_status trim_left trim_right to_lower
  upsert_handler key nonce ok now req table = elim req [
    | none ↦ (400, table)
    | some r ↦
        let provider = to_lower (trim_space (r.0)) in
        let secret = trim_space (r.1) in
        if is_empty provider || is_empty secret
        then (400, table)
        else stored_status table (upsert_key key nonce ok now provider secret table)
  ]
