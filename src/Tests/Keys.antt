-- ===== src/Tests/Keys.antt =====
-- Credentials, API keys and metadata keys at concrete inputs: a cipher that prepends the plaintext's key.
use majordomo_gateway.Base.{
  ◌≡◌, ◌⊎◌, refl, ap, true, false, none, some, List, [], ◌∷◌, ◌++◌, if◌then◌else◌, Str, lit, ◌==◌,
  eq_refl, lookup, length, drop, to_lower, ◌>>=◌, is_empty, ◌<◌, ℕ, arith,
}
use majordomo_gateway.Auth.{
  resolve_api_key, get_from_cache, resolved, refused, api_key_revoked, info_of,
}
use majordomo_gateway.Tests.Auth.{keeper}
use majordomo_gateway.Credentials.{
  Crypto, CryptoLaws, new_aes_store, upsert_handler, trim_space, resolve_routed_credential, has_key,
  succeeded,
}
use majordomo_gateway.Credentials.Laws.{upsert_handler-resolve_routed_credential}
use majordomo_gateway.Provider.Names.{is_credential_provider}
use majordomo_gateway.Keys.{
  KeyRow, create_handler, revoke_handler, validate_key_format, get_api_key_by_hash, as_api_key,
  find_hash, is_revocable, revoked,
}
use majordomo_gateway.Keys.Laws.{
  by_cache, create_handler-resolve_api_key, revoke_handler-resolve_api_key,
}
use majordomo_gateway.Metadata.{get_active_keys}
use majordomo_gateway.Logs.Writer.{is_active_key}
use majordomo_gateway.Logs.Types.{RequestLog}
use majordomo_gateway.Tests.Usage.{log}
use majordomo_gateway.Metadata.Batches.{
  matching, awaits_backfill, awaits_cleanup, backfill_row, IsCompleted,
}
use majordomo_gateway.Metadata.Activation.{
  nothing_started, work, MetadataRow, change_handler, active_of,
}
use majordomo_gateway.Metadata.Activation.Laws.{change_handler-get_active_keys}

-- A toy: the sealed text is the key and the plaintext, and Base64 adds a byte.
abbrev toy : Crypto
toy = record {
  seal = λ key nonce plaintext. key ++ plaintext;
  open_sealed = λ key nonce sealed. some (drop (length key) sealed);
  encode_base64 = λ s. 1 ∷ s;
  decode_base64 = λ s. some (drop 1 s);
  decode_raw_base64 = λ s. none;
  decode_hex = λ s. some s;
}

drop_key : (key s : Str) → drop (length key) (key ++ s) ≡ s
drop_key [] s = refl
drop_key (c ∷ key) s = drop_key key s

toy_laws : CryptoLaws toy
toy_laws = record {
  open_sealed-seal = λ key nonce plaintext. ap some (drop_key key plaintext);
  decode-encode = λ s. refl;
}

abbrev master : Str
master = lit "0123456789abcdef0123456789abcdef"

twelve : length (lit "unique nonce") ≡ 12
unfolding lit
twelve = refl

nonempty : is_empty (lit "s") ≡ false
unfolding lit
nonempty = refl

made : new_aes_store toy master ≡ some master
unfolding new_aes_store lit
made = refl

upsert_handler-resolve_routed_credential_example :
    let answer =
      upsert_handler toy master
        (some (lit "unique nonce"))
        true
        5
        (some (lit " OpenAI", lit "sk "))
        [] in
    let provider = to_lower (trim_space (lit " OpenAI")) in
    ((answer.0 ≡ 201)
      × (is_credential_provider provider ≡ true)
      × (resolve_routed_credential toy (some master) true (lit "openai") answer.1 ≡ (
          if provider == lit "openai"
          then succeeded (trim_space (lit "sk "))
          else resolve_routed_credential toy (some master) true (lit "openai") []))
      × (has_key true (lit "openai") answer.1
          ≡ (if provider == lit "openai" then some true else has_key true (lit "openai") [])))
    ⊎ (((answer.0 ≡ 400) ⊎ (answer.0 ≡ 500)) × (answer.1 ≡ []))
upsert_handler-resolve_routed_credential_example =
    upsert_handler-resolve_routed_credential toy toy_laws (lit "0123456789abcdef0123456789abcdef")
      master (lit "unique nonce") true 5 (lit " OpenAI") (lit "sk ") (lit "openai") [] made twelve

abbrev add_byte : Str → Str
add_byte s = 65 ∷ s

abbrev key_row : KeyRow
key_row = record {
  id = lit "i";
  key_hash = lit "h";
  name = lit "n";
  description = none;
  is_active = true;
  created_at = 1;
  revoked_at = none;
  last_used_at = none;
  request_count = 0;
  deprecated_model_behavior = lit "passthrough";
}

abbrev hash_to_h : Str → Str
hash_to_h s = lit "h"

create_handler-resolve_api_key_example :
    let answer =
      create_handler add_byte add_byte
        (some (lit "r"))
        true
        (lit "j")
        3
        (some (lit "b", none))
        [] in
    ((row : KeyRow) × (plaintext : Str) × (answer.1 ≡ (201, some (row, plaintext)))
      × (validate_key_format plaintext ≡ true)
      × ((row.id ≡ lit "j") × (row.name ≡ trim_space (lit "b")))
      × ((resolve_api_key keeper add_byte plaintext 4 5 (get_api_key_by_hash true answer.0) []).1
          ≡ by_cache keeper add_byte
              (get_from_cache keeper (add_byte plaintext) 4 []).1
              (resolved (some (info_of (add_byte plaintext) (as_api_key row)))))
      × (find_hash (lit "o") answer.0
          ≡ (if add_byte plaintext == lit "o" then some row else find_hash (lit "o") [])))
    ⊎ (((answer.1 ≡ (400, none)) ⊎ (answer.1 ≡ (500, none))) × (answer.0 ≡ []))
create_handler-resolve_api_key_example =
    create_handler-resolve_api_key keeper add_byte add_byte (lit "r") (lit "j") (lit "b") (lit "o")
      none true 3 4 5 [] [] refl

has_it : find_hash (lit "h") (key_row ∷ []) ≡ some key_row
unfolding find_hash lit ◌==◌
has_it = refl

revoke_handler-resolve_api_key_example :
    let answer = revoke_handler true 3 (some (lit "i")) (key_row ∷ []) in
    (answer.1 ≡ 204)
    × ((resolve_api_key keeper hash_to_h (lit "s") 4 5 (get_api_key_by_hash true answer.0) []).1
        ≡ by_cache keeper hash_to_h
            (get_from_cache keeper (lit "h") 4 []).1
            (refused api_key_revoked))
    × (find_hash (lit "o") answer.0 ≡ (
        find_hash (lit "o") (key_row ∷ [])
        >>= (λ r. some (if is_revocable (lit "i") r then revoked 3 r else r))))
revoke_handler-resolve_api_key_example =
    revoke_handler-resolve_api_key keeper hash_to_h (lit "s") (lit "i") (lit "o") 3 4 5 key_row
      (key_row ∷ []) [] nonempty has_it refl (eq_refl (lit "i"))

abbrev user_row : MetadataRow
user_row = record {
  api_key_id = lit "k";
  key_name = lit "user";
  display_name = none;
  is_active = false;
  activated_at = none;
}

abbrev table : List MetadataRow
table = user_row ∷ []

-- One request that has the key, which is not in its index.
abbrev tagged : List (RequestLog ℕ)
tagged = record (log (lit "1") none [] 10 200) { raw_metadata = (lit "user", lit "v") ∷ [] } ∷ []

tagged_to_backfill : matching (awaits_backfill (lit "k") (lit "user")) tagged < 2
unfolding matching awaits_backfill lookup ◌==◌ lit
tagged_to_backfill = omega arith

tagged_to_clean_up : matching (awaits_cleanup (lit "k") (lit "user")) tagged < 2
unfolding matching awaits_cleanup lookup ◌==◌ lit
tagged_to_clean_up = omega arith

change_handler-get_active_keys_example :
    let (rows, cache, status, started) =
      change_handler true true 7 (some (some (lit "k"), lit "user")) table [] in
    let active = active_of (lit "k") rows in
    let done = work started 2 (λ n. true) tagged in
    ((status ≡ 200)
      × IsCompleted
          (awaits_backfill (lit "k") (lit "user"))
          (backfill_row (lit "k") (lit "user"))
          (λ n. true)
          0
          tagged
          done
      × ((get_active_keys 300 8 9 (λ k. some (active_of k rows)) (lit "k") cache).1 ≡ some active)
      × (is_active_key active (lit "user") ≡ (
          if lit "user" == lit "user"
          then true
          else is_active_key (active_of (lit "k") table) (lit "user")))
      × (lookup (lit "z") cache ≡ (if lit "k" == lit "z" then none else lookup (lit "z") [])))
    ⊎ ((started ≡ nothing_started)
        × (cache ≡ [])
        × ((status ≡ 404) ⊎ (((status ≡ 400) ⊎ (status ≡ 500)) × (rows ≡ table))))
change_handler-get_active_keys_example =
    change_handler-get_active_keys true true 7 300 8 9 (lit "k") (lit "user") (lit "user") (lit "z")
      table [] 2 (λ n. true) tagged tagged_to_backfill tagged_to_clean_up
