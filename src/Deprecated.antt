-- ===== src/Deprecated.antt =====
-- The deprecated models of internal/deprecated/service.go: the map, loaded once from a file.
use majordomo_gateway.Base.{
  Option, none, some, [], ◌∷◌, if◌then◌else◌, Str, lit, ◌==◌, Dict, lookup, insert, is_empty, ◌≡◌,
  arith, Distinct, or_else, lookup-insert, eq_iff, false,
}

-- The loop over the raw map.
unfoldable pub load_into : Dict Str → Dict Str → Dict Str
load_into models [] = models
load_into models ((k, v) ∷ raw) =
    let models' = if k == lit "_comment" then models else insert k v models in load_into models' raw

-- NewService: the file, when it can be read, and what it unmarshals to, when it can.
unfoldable pub new_service : Str → (Str → Option Str) → (Str → Option (Dict Str)) → Dict Str
unfolding load_into
new_service file_path read_file unmarshal =
    if is_empty file_path then [] else elim (read_file file_path) [
      | none ↦ []
      | some data' ↦ elim (unmarshal data') [ none ↦ [] | some raw ↦ load_into [] raw ]
    ]

lookup-load_into :
    (models raw : Dict Str) (k : Str)
    → Distinct raw
    → lookup k (load_into models raw)
      ≡ or_else (if k == lit "_comment" then none else lookup k raw) (lookup k models)
unfolding load_into lookup
lookup-load_into models [] k d = ground arith
lookup-load_into models ((j, v) ∷ raw) k (fresh, d) = ground (
  arith,
  lookup-load_into (if j == lit "_comment" then models else insert j v models) raw k d,
  lookup-insert j k v models,
  eq_iff j k,
)

-- A model is replaced exactly by what the file says of it, where the file can be read and parsed; the
-- file's comment is no model.
lookup-new_service :
    (file_path data' : Str) (raw : Dict Str) (read_file : Str → Option Str)
    (unmarshal : Str → Option (Dict Str)) (k : Str)
    → is_empty file_path ≡ false
    → read_file file_path ≡ some data'
    → unmarshal data' ≡ some raw
    → Distinct raw
    → lookup k (new_service file_path read_file unmarshal)
      ≡ (if k == lit "_comment" then none else lookup k raw)
unfolding new_service lookup
lookup-new_service file_path data' raw read_file unmarshal k e r u d =
    rw (e, r, u) (ground (arith, lookup-load_into [] raw k d))
