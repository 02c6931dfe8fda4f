-- ===== src/Keys.antt =====
-- Gateway API keys: internal/repositories/api_keys.go, internal/auth/keygen.go,
-- internal/services/key_service.go, and the handlers of internal/controllers/keys_controller.go.
pub mod Laws
use majordomo_gateway.Base.{
  ℕ, Bool, true, false, not, ◌&&◌, ◌||◌, Option, none, some, List, [], ◌∷◌, ◌++◌, map,
  if◌then◌else◌, Str, lit, ◌==◌, is_empty, is_some, length, leb, ltb, add_int, has_prefix, sort_by,
  ◌>>=◌, ◌≡◌,
}
use majordomo_gateway.Auth.{ApiKey, Found, lookup_failed, not_found, found}
use majordomo_gateway.Credentials.{trim_space}

-- models.APIKey, a row of api_keys
pub record KeyRow : Type 0 where
  pub id : Str
  pub key_hash : Str
  pub name : Str
  pub description : Option Str
  pub is_active : Bool
  pub created_at : ℕ
  pub revoked_at : Option ℕ
  pub last_used_at : Option ℕ
  pub request_count : ℕ
  pub deprecated_model_behavior : Str

-- UpdateAPIKeyInput
pub record UpdateKeyInput : Type 0 where
  pub name : Option Str
  pub description : Option Str
  pub deprecated_model_behavior : Option Str

abbrev pub key_prefix : Str
key_prefix = lit "mdm_sk_"

-- GenerateAPIKey, of the random bytes, where there are any; `encode` is base64.RawURLEncoding.
unfoldable pub generate_api_key : (Str → Str) → (Str → Str) → Option Str → Option (Str × Str)
generate_api_key hash_api_key encode random = random >>= (λ bytes.
    let plaintext = key_prefix ++ encode bytes in some (plaintext, hash_api_key plaintext))

unfoldable pub validate_key_format : Str → Bool
unfolding has_prefix
validate_key_format key =
    if leb (length key) (length key_prefix) then false else has_prefix key key_prefix

pub data KeyResult (A : Type 0) : Type 0 where
  done : A → KeyResult A
  key_missing key_failed : KeyResult A

-- key_hash = $1, which is unique
unfoldable pub find_hash : Str → List KeyRow → Option KeyRow
find_hash hash [] = none
find_hash hash (row ∷ table) =
    let rest = find_hash hash table in if row.key_hash == hash then some row else rest

unfoldable pub find_id : Str → List KeyRow → Option KeyRow
find_id id [] = none
find_id id (row ∷ table) = let rest = find_id id table in if row.id == id then some row else rest

-- CreateAPIKey, with the defaults of the columns; `id` and `now` are the database's.
unfoldable pub create_api_key :
    Bool → Str → ℕ → Str → Str → Option Str → List KeyRow → List KeyRow × KeyResult KeyRow
unfolding find_hash
create_api_key ok id now hash name description table =
    let row : KeyRow = record {
      id = id;
      key_hash = hash;
      name = name;
      description = description;
      is_active = true;
      created_at = now;
      revoked_at = none;
      last_used_at = none;
      request_count = 0;
      deprecated_model_behavior = lit "passthrough";
    } in
    if ok && not (is_some (find_hash hash table))
    then (table ++ row ∷ [], done row)
    else (table, key_failed)

-- The row as the resolver reads it.
abbrev pub as_api_key : KeyRow → ApiKey
as_api_key row = record {
  id = row.id;
  name = row.name;
  is_active = row.is_active;
  revoked = is_some row.revoked_at;
  deprecated_model_behavior = row.deprecated_model_behavior;
}

unfoldable pub get_api_key_by_hash : Bool → List KeyRow → Str → Found
unfolding find_hash
get_api_key_by_hash ok table hash =
    if ok
    then elim (find_hash hash table) [ none ↦ not_found | some row ↦ found (as_api_key row) ]
    else lookup_failed

unfoldable pub get_api_key_by_id : Bool → List KeyRow → Str → KeyResult KeyRow
unfolding find_id
get_api_key_by_id ok table id =
    if ok then elim (find_id id table) [ none ↦ key_missing | some row ↦ done row ] else key_failed

-- ORDER BY created_at DESC
unfoldable pub list_api_keys : Bool → List KeyRow → Option (List KeyRow)
unfolding sort_by
list_api_keys ok table =
    if ok then some (sort_by (λ a b. ltb b.created_at a.created_at) table) else none

-- UPDATE … WHERE: the rows behind it, and whether it changed any.
unfoldable pub update_rows : (KeyRow → Bool) → (KeyRow → KeyRow) → List KeyRow → List KeyRow × Bool
update_rows test change [] = ([], false)
update_rows test change (row ∷ table) =
    let (rest, any) = update_rows test change table in
    if test row then (change row ∷ rest, true) else (row ∷ rest, any)

unfoldable pub set_fields : UpdateKeyInput → KeyRow → KeyRow
set_fields input row = record row {
  name = elim input.name [ none ↦ row.name | some v ↦ v ];
  description = elim input.description [ none ↦ row.description | some v ↦ some v ];
  deprecated_model_behavior = elim input.deprecated_model_behavior [
    | none ↦ row.deprecated_model_behavior
    | some v ↦ v
  ];
}

unfoldable pub update_api_key :
    Bool → Str → UpdateKeyInput → List KeyRow → List KeyRow × KeyResult KeyRow
unfolding get_api_key_by_id update_rows set_fields
update_api_key ok id input table =
    let (rows, any) = update_rows (λ row. row.id == id) (set_fields input) table in
    if is_some input.name || (is_some input.description || is_some input.deprecated_model_behavior)
    then if ok then (rows, get_api_key_by_id true rows id) else (table, key_failed)
    else (table, get_api_key_by_id ok table id)

unfoldable pub revoked : ℕ → KeyRow → KeyRow
revoked now row = record row { is_active = false; revoked_at = some now }

abbrev pub is_revocable : Str → KeyRow → Bool
is_revocable id row = (row.id == id) && row.is_active

unfoldable pub revoke_api_key : Bool → ℕ → Str → List KeyRow → List KeyRow × KeyResult Bool
unfolding update_rows revoked
revoke_api_key ok now id table =
    let (rows, any) = update_rows (is_revocable id) (revoked now) table in
    if ok then (rows, if any then done true else key_missing) else (table, key_failed)

unfoldable pub update_last_used : Bool → ℕ → Str → List KeyRow → List KeyRow
unfolding update_rows add_int
update_last_used ok now id table =
    let (rows, any) =
      update_rows (λ row. row.id == id)
        (λ row. record row { last_used_at = some now; request_count = add_int row.request_count 1 })
        table in
    if ok then rows else table

-- CreateKey of the service: the row and the plaintext.
unfoldable pub create_key :
    (Str → Str)
    → (Str → Str)
    → Option Str
    → Bool
    → Str
    → ℕ
    → Str
    → Option Str
    → List KeyRow
    → List KeyRow × KeyResult (KeyRow × Str)
unfolding generate_api_key create_api_key
create_key hash_api_key encode random ok id now name description table =
    elim (generate_api_key hash_api_key encode random) [
      | none ↦ (table, key_failed)
      | some generated ↦
          let (rows, result) = create_api_key ok id now (generated.1) name description table in
          (
            rows,
            elim result [
              | done row ↦ done (row, generated.0)
              | key_missing ↦ key_missing
              | key_failed ↦ key_failed
            ],
          )
    ]

-- The statuses of the controller, and the rows behind its handlers. A body or an id that cannot be
-- decoded is `none`.
unfoldable pub create_handler :
    (Str → Str)
    → (Str → Str)
    → Option Str
    → Bool
    → Str
    → ℕ
    → Option (Str × Option Str)
    → List KeyRow
    → List KeyRow × (ℕ × Option (KeyRow × Str))
unfolding create_key
create_handler hash_api_key encode random ok id now req table = elim req [
  | none ↦ (table, (400, none))
  | some r ↦
      let name = trim_space (r.0) in
      if is_empty name
      then (table, (400, none))
      else let (rows, result) = create_key hash_api_key encode random ok id now name (r.1) table in
        (
          rows,
          elim result [
            | done created ↦ (201, some created)
            | key_missing ↦ (500, none)
            | key_failed ↦ (500, none)
          ],
        )
]

unfoldable pub revoke_handler : Bool → ℕ → Option Str → List KeyRow → List KeyRow × ℕ
unfolding revoke_api_key
revoke_handler ok now id table = elim id [
  | none ↦ (table, 400)
  | some key_id ↦
      let (rows, result) = revoke_api_key ok now key_id table in
      (rows, elim result [ done b ↦ 204 | key_missing ↦ 404 | key_failed ↦ 500 ])
]
