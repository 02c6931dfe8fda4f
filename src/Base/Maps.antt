-- ===== src/Base/Maps.antt =====
-- Go maps as association lists: the entries in the order in which a range loop visits them.
use mathlib.Core.Path.{◌≡◌, refl}
use mathlib.Core.Option.{Option, none, some}
use mathlib.Core.List.{List, [], ◌∷◌, map}
use native.Mathlib.Omega.{arith}
use majordomo_gateway.Base.Tests.{if◌then◌else◌}
use majordomo_gateway.Base.Text.{Str, ◌==◌, eq_iff}

abbrev pub Dict {ℓ} : Type ℓ → Type ℓ
Dict V = List (Str × V)

module _ {ℓ} {V : Type ℓ} where
  -- v, ok := m[key]
  unfoldable pub lookup : Str → Dict V → Option V
  lookup key [] = none
  lookup key (entry ∷ entries) = if entry.0 == key then some (entry.1) else lookup key entries

  -- m[key] = value
  unfoldable pub insert : Str → V → Dict V → Dict V
  insert key value [] = (key, value) ∷ []
  insert key value (entry ∷ entries) =
      let rest = insert key value entries in
      if entry.0 == key then (entry.0, value) ∷ entries else entry ∷ rest

  -- delete(m, key)
  unfoldable pub delete : Str → Dict V → Dict V
  delete key [] = []
  delete key (entry ∷ entries) =
      let rest = delete key entries in if entry.0 == key then rest else entry ∷ rest

  pub lookup-insert :
      (key other : Str) (value : V) (d : Dict V)
      → lookup other (insert key value d) ≡ (if key == other then some value else lookup other d)
  unfolding insert lookup
  lookup-insert key other value [] = refl
  lookup-insert key other value (entry ∷ d) = ground (
    arith,
    lookup-insert key other value d,
    eq_iff key other,
    eq_iff (entry.0) key,
    eq_iff (entry.0) other,
  )

  pub lookup-delete :
      (k j : Str) (m : Dict V) → lookup j (delete k m) ≡ (if k == j then none else lookup j m)
  unfolding lookup delete
  lookup-delete k j [] = ground arith
  lookup-delete k j ((i, w) ∷ m) =
      ground (arith, eq_iff k j, eq_iff i k, eq_iff i j, lookup-delete k j m)

  abbrev pub keys : Dict V → List Str
  keys = map (λ e. e.0)

  -- No key twice, as in every Go map.
  abbrev pub Distinct : Dict V → Type ℓ
  Distinct [] = Unit
  Distinct ((k, v) ∷ m) = (lookup k m ≡ none) × Distinct m

-- The first value, or else the second.
abbrev pub or_else {ℓ} : {A : Type ℓ} → Option A → Option A → Option A
or_else none o = o
or_else (some a) o = some a

-- m[k][j], of a map of maps
unfoldable pub lookup_in {ℓ} : {V : Type ℓ} → Str → Str → Dict (Dict V) → Option V
lookup_in k j m = elim (lookup k m) [ none ↦ none | some inner ↦ lookup j inner ]

module _ {ℓ} {V : Type ℓ} where
  pub insert-Distinct : (k : Str) (v : V) (m : Dict V) → Distinct m → Distinct (insert k v m)
  unfolding insert lookup
  insert-Distinct k v [] d = (refl, tt)
  insert-Distinct k v ((j, w) ∷ m) (fresh, d) =
      ground (arith, lookup-insert k j v m, eq_iff k j, eq_iff j k, insert-Distinct k v m d)
