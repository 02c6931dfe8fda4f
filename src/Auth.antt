-- ===== src/Auth.antt =====
-- The Resolver of internal/auth/resolver.go: a key is looked up by its hash in a cache, and else in
-- the database. The cache is the LRU cache of hashicorp/golang-lru, the hash is SHA-256.
pub mod Laws
use majordomo_gateway.Base.{
  ℕ, ◌+◌, Bool, true, false, Option, none, some, List, [], ◌∷◌, if◌then◌else◌, Str, ltb, is_empty,
  refl, ◌≡◌, ◌⊎◌,
}

-- models.APIKey, as far as it is read
pub record ApiKey : Type 0 where
  pub id : Str
  pub name : Str
  pub is_active : Bool
  pub revoked : Bool
  pub deprecated_model_behavior : Str

-- models.APIKeyInfo
pub record ApiKeyInfo : Type 0 where
  pub id : Str
  pub hash : Str
  pub alias : Str
  pub deprecated_model_behavior : Str

pub record CachedKey : Type 0 where
  pub info : Option ApiKeyInfo
  pub expires_at : ℕ
  pub is_valid : Bool

pub data AuthError : Type 0 where
  invalid_api_key api_key_revoked api_key_inactive storage_error : AuthError

pub data Resolved : Type 0 where
  resolved : Option ApiKeyInfo → Resolved
  refused : AuthError → Resolved

-- What GetAPIKeyByHash can give.
pub data Found : Type 0 where
  lookup_failed : Found
  not_found : Found
  found : ApiKey → Found

-- The LRU cache: its operations, with what the cache holds; a full cache drops entries when one is
-- added, and Get changes only their order.
pub record Lru : Type 1 where
  pub Cache : Type 0
  pub held : Cache → Str → Option CachedKey
  pub get : Str → Cache → Cache
  pub add : Str → CachedKey → Cache → Cache
  pub remove : Str → Cache → Cache

pub record LruLaws (L : Lru) : Type 0 where
  pub held-get : (k j : Str) (c : L.Cache) → L.held (L.get k c) j ≡ L.held c j
  pub held-add :
      (k j : Str) (e x : CachedKey) (c : L.Cache)
      → L.held (L.add k e c) j ≡ some x
      → ((k ≡ j) × (e ≡ x)) ⊎ (L.held c j ≡ some x)
  pub held-remove :
      (k j : Str) (x : CachedKey) (c : L.Cache)
      → L.held (L.remove k c) j ≡ some x
      → L.held c j ≡ some x
  pub held-remove_self : (k : Str) (c : L.Cache) → L.held (L.remove k c) k ≡ none

-- 5 * time.Minute, in seconds
abbrev pub cache_ttl : ℕ
cache_ttl = 300

abbrev pub info_of : Str → ApiKey → ApiKeyInfo
info_of hash key = record {
  id = key.id;
  hash = hash;
  alias = key.name;
  deprecated_model_behavior = key.deprecated_model_behavior;
}

module _ (L : Lru) where
  unfoldable pub cache_valid : Str → ApiKeyInfo → ℕ → L.Cache → L.Cache
  cache_valid hash info now c =
      L.add hash (record { info = some info; expires_at = now + cache_ttl; is_valid = true }) c

  unfoldable pub cache_invalid : Str → ℕ → L.Cache → L.Cache
  cache_invalid hash now c =
      L.add hash (record { info = none; expires_at = now + cache_ttl; is_valid = false }) c

  -- The cache behind the call, and the entry where it is there and not expired.
  unfoldable pub get_from_cache : Str → ℕ → L.Cache → L.Cache × Option CachedKey
  get_from_cache hash now c = elim (L.held c hash) [
    | none ↦ (L.get hash c, none)
    | some cached ↦
        if ltb cached.expires_at now
        then (L.remove hash (L.get hash c), none)
        else (L.get hash c, some cached)
  ]

  -- What is done with the database's answer, at the time `now`.
  unfoldable pub resolve_found : Str → ℕ → Found → L.Cache → L.Cache × Resolved
  unfolding cache_valid cache_invalid
  resolve_found hash now lookup_failed c = (c, refused storage_error)
  resolve_found hash now not_found c = (cache_invalid hash now c, refused invalid_api_key)
  resolve_found hash now (found key) c =
      if key.is_active
      then (cache_valid hash (info_of hash key) now c, resolved (some (info_of hash key)))
      else (
        cache_invalid hash now c,
        refused (if key.revoked then api_key_revoked else api_key_inactive),
      )

  -- ResolveAPIKey: `now` is read in front of the query, `later` behind it; `answer` is the database's.
  unfoldable pub resolve_api_key :
      (Str → Str) → Str → ℕ → ℕ → (Str → Found) → L.Cache → L.Cache × Resolved
  resolve_api_key hash_api_key api_key now later answer c =
      if is_empty api_key
      then (c, refused invalid_api_key)
      else let hash = hash_api_key api_key in
        let (c', cached) = get_from_cache hash now c in
        elim cached [
          | none ↦ resolve_found hash later (answer hash) c'
          | some entry ↦
              (c', if entry.is_valid then resolved entry.info else refused api_key_inactive)
        ]

  unfoldable pub invalidate_cache : Str → L.Cache → L.Cache
  invalidate_cache hash c = L.remove hash c
