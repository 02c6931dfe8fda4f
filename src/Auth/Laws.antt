-- ===== src/Auth/Laws.antt =====
-- How stale an accepted key can be, and that an invalidated one is looked up again.
use mathlib.Core.List.Memᴰ.{head, tail}
use majordomo_gateway.Base.{
  ℕ, ◌+◌, ◌≤◌, refl, ◌≡◌, sym, ap, ◌∙◌, false, Option, none, some, List, [], ◌∷◌, Memᴰ, Str,
  is_empty, ltb, if◌then◌else◌, Bool-cases, Option-cases, some_injective, option_clash, arith, ◌⊎◌,
  inl, inr,
}
use majordomo_gateway.Auth.{
  CachedKey, Found, lookup_failed, not_found, found, Resolved, resolved, refused, invalid_api_key,
  api_key_revoked, api_key_inactive, storage_error, Lru, LruLaws, cache_ttl, info_of, cache_valid,
  cache_invalid, get_from_cache, resolve_found, resolve_api_key, invalidate_cache,
}

-- What the database said of a hash, and when the answer was dealt with.
pub record Answer : Type 0 where
  pub hash : Str
  pub at : ℕ
  pub said : Found

-- What an answer means, whatever the cache holds.
pub verdict : Str → Found → Resolved
verdict hash lookup_failed = refused storage_error
verdict hash not_found = refused invalid_api_key
verdict hash (found key) =
    if key.is_active
    then resolved (some (info_of hash key))
    else refused (if key.revoked then api_key_revoked else api_key_inactive)

-- What is left of a verdict in the cache: a key, or that there is none to use.
pub cached_verdict : Resolved → Resolved
cached_verdict (resolved info) = resolved info
cached_verdict (refused error) = refused api_key_inactive

-- The entry that an answer leaves in the cache.
entry_of : Answer → Option CachedKey
entry_of a = elim a.said [
  | lookup_failed ↦ none
  | not_found ↦ some (record { info = none; expires_at = a.at + cache_ttl; is_valid = false })
  | found key ↦ some (record {
    info = if key.is_active then some (info_of a.hash key) else none;
    expires_at = a.at + cache_ttl;
    is_valid = key.is_active;
  })
]

entry_of-verdict :
    (hash : Str) (at' : ℕ) (said : Found) (x : CachedKey)
    → entry_of (record { hash = hash; at = at'; said = said }) ≡ some x
    → (x.expires_at ≡ at' + cache_ttl)
      × ((if x.is_valid then resolved x.info else refused api_key_inactive)
          ≡ cached_verdict (verdict hash said))
unfolding entry_of cached_verdict verdict
entry_of-verdict hash at' lookup_failed x h = absurd (option_clash h)
entry_of-verdict hash at' not_found x h = let same = some_injective h in rw (sym same) (refl, refl)
entry_of-verdict hash at' (found key) x h =
    let same = some_injective h in
    rw (sym same) (refl, elim (Bool-cases key.is_active) [ inl e ↦ rw e | inr e ↦ rw e ])

module _ (L : Lru) where
  -- The caches that a resolver can come to have, with the answers it has dealt with, the last first.
  -- Requests run at once: one looks into the cache, another's answer arrives, a key is invalidated.
  pub data Reaches : L.Cache → List Answer → Type 0 where
    start : (c : L.Cache) → ((k : Str) → L.held c k ≡ none) → Reaches c []
    looked :
        (hash : Str) (now : ℕ) {c : L.Cache} {log : List Answer}
        → Reaches c log
        → Reaches (get_from_cache L hash now c).0 log
    settled :
        (a : Answer) {c : L.Cache} {log : List Answer}
        → Reaches c log
        → Reaches (resolve_found L a.hash a.at a.said c).0 (a ∷ log)
    invalidated :
        (hash : Str) {c : L.Cache} {log : List Answer}
        → Reaches c log
        → Reaches (invalidate_cache L hash c) log

  -- What holds of each entry: an answer left it.
  abbrev Backed : L.Cache → List Answer → Type 0
  Backed c log =
      (k : Str) (x : CachedKey)
      → L.held c k ≡ some x
      → (a : Answer) × Memᴰ a log × (a.hash ≡ k) × (entry_of a ≡ some x)

module _ (L : Lru) (laws : LruLaws L) where
  looked-held :
      (hash : Str) (now : ℕ) (c : L.Cache) (k : Str) (x : CachedKey)
      → L.held (get_from_cache L hash now c).0 k ≡ some x
      → L.held c k ≡ some x
  unfolding get_from_cache
  looked-held hash now c k x h = elim (Option-cases (L.held c hash)) [
    | inl e ↦ sym (laws.held-get hash k c) ∙ rw (get_from_cache, e) at h
    | inr (y, e) ↦ elim (Bool-cases (ltb y.expires_at now)) [
      | inl late ↦
          sym (laws.held-get hash k c)
          ∙ laws.held-remove hash k x (L.get hash c) (rw (get_from_cache, e, late) at h)
      | inr fresh ↦ sym (laws.held-get hash k c) ∙ rw (get_from_cache, e, fresh) at h
    ]
  ]

  added-Backed :
      (a : Answer) (e : CachedKey) (c : L.Cache) (log : List Answer)
      → Backed L c log
      → entry_of a ≡ some e
      → Backed L (L.add a.hash e c) (a ∷ log)
  added-Backed a e c log b s k x h = elim (laws.held-add a.hash k e x c h) [
    | inl (same, same') ↦ (a, head refl, same, s ∙ ap some same')
    | inr old ↦ let (a', m, q, s') = b k x old in (a', tail m, q, s')
  ]

  settled-Backed :
      (hash : Str) (at' : ℕ) (said : Found) (c : L.Cache) (log : List Answer)
      → Backed L c log
      → Backed L
          (resolve_found L hash at' said c).0
          (record { hash = hash; at = at'; said = said } ∷ log)
  unfolding resolve_found cache_valid cache_invalid entry_of
  settled-Backed hash at' lookup_failed c log b k x h =
      let (a, m, q, s) = b k x h in (a, tail m, q, s)
  settled-Backed hash at' not_found c log b k x h =
      added-Backed (record { hash = hash; at = at'; said = not_found }) _ c log b refl k x h
  settled-Backed hash at' (found key) c log b k x h = elim (Bool-cases key.is_active) [
    | inl e ↦
        added-Backed (record { hash = hash; at = at'; said = found key }) _ c log b (rw e) k x
          (rw e at h)
    | inr e ↦
        added-Backed (record { hash = hash; at = at'; said = found key }) _ c log b (rw e) k x
          (rw e at h)
  ]

  Reaches-Backed : {c : L.Cache} {log : List Answer} → Reaches L c log → Backed L c log
  unfolding invalidate_cache
  Reaches-Backed (start c empty) k x h = absurd (option_clash (sym (empty k) ∙ h))
  Reaches-Backed (looked hash now {c} {log} r) k x h =
      Reaches-Backed r k x (looked-held hash now c k x h)
  Reaches-Backed (settled a {c} {log} r) k x h =
      settled-Backed a.hash a.at a.said c log (Reaches-Backed r) k x h
  Reaches-Backed (invalidated hash {c} {log} r) k x h =
      Reaches-Backed r k x (laws.held-remove hash k x c h)

  -- An entry that is used is not too old.
  used :
      (hash : Str) (now : ℕ) (c : L.Cache) (x : CachedKey)
      → (get_from_cache L hash now c).1 ≡ some x
      → (L.held c hash ≡ some x) × (now ≤ x.expires_at)
  unfolding get_from_cache
  used hash now c x h = elim (Option-cases (L.held c hash)) [
    | inl e ↦ absurd (option_clash (rw (get_from_cache, e) at h))
    | inr (y, e) ↦ elim (Bool-cases (ltb y.expires_at now)) [
      | inl late ↦ absurd (option_clash (rw (get_from_cache, e, late) at h))
      | inr fresh ↦
          let same = some_injective (rw (get_from_cache, e, fresh) at h) in
          (e ∙ ap some same, rw (sym same) (ground (arith, fresh)))
    ]
  ]

  resolve_found-verdict :
      (hash : Str) (now : ℕ) (said : Found) (c : L.Cache)
      → (resolve_found L hash now said c).1 ≡ verdict hash said
  unfolding resolve_found verdict
  resolve_found-verdict hash now lookup_failed c = refl
  resolve_found-verdict hash now not_found c = refl
  resolve_found-verdict hash now (found key) c = elim (Bool-cases key.is_active) [
    | inl e ↦ rw e
    | inr e ↦ rw e
  ]

  looked_up :
      (hash_api_key : Str → Str) (api_key : Str) (now later : ℕ) (answer : Str → Found)
      (c : L.Cache)
      → is_empty api_key ≡ false
      → (get_from_cache L (hash_api_key api_key) now c).1 ≡ none
      → (resolve_api_key L hash_api_key api_key now later answer c).1
        ≡ verdict (hash_api_key api_key) (answer (hash_api_key api_key))
  unfolding resolve_api_key
  looked_up h api_key now later answer c e miss =
      rw (e, miss)
        (resolve_found-verdict (h api_key) later (answer (h api_key))
          (get_from_cache L (h api_key) now c).0)

  -- Whatever requests and invalidations came before, a key that is not empty is answered by what
  -- the database says now, or else as an answer for the same hash was that the resolver dealt
  -- with no more than five minutes ago, where an unknown or a revoked key counts as inactive. The
  -- cache keeps the laws of an LRU cache.
  pub resolve_api_key-recent :
      (hash_api_key : Str → Str) (api_key : Str) (now later : ℕ) (answer : Str → Found)
      {c : L.Cache} {log : List Answer}
      → Reaches L c log
      → is_empty api_key ≡ false
      → ((resolve_api_key L hash_api_key api_key now later answer c).1
          ≡ verdict (hash_api_key api_key) (answer (hash_api_key api_key)))
        ⊎ ((a : Answer) × Memᴰ a log
            × (a.hash ≡ hash_api_key api_key)
            × (now ≤ a.at + cache_ttl)
            × ((resolve_api_key L hash_api_key api_key now later answer c).1
                ≡ cached_verdict (verdict a.hash a.said)))
  unfolding resolve_api_key
  resolve_api_key-recent h api_key now later answer {c} r e =
      elim (Option-cases (get_from_cache L (h api_key) now c).1) [
        | inl miss ↦ inl (looked_up h api_key now later answer c e miss)
        | inr (x, hit) ↦
            let (there, fresh) = used (h api_key) now c x hit in
            let (a, m, same, s) = Reaches-Backed r (h api_key) x there in
            let (until, means) = entry_of-verdict a.hash a.at a.said x s in
            inr (a, m, same, rw until at fresh, rw (e, hit) means)
      ]

  -- When a key that is not empty is invalidated, the next request with it is answered by the
  -- database, whatever the cache held. The cache keeps the laws of an LRU cache.
  resolve_api_key-invalidate_cache :
      (hash_api_key : Str → Str) (api_key : Str) (now later : ℕ) (answer : Str → Found)
      (c : L.Cache)
      → is_empty api_key ≡ false
      → (resolve_api_key L hash_api_key api_key now later answer
          (invalidate_cache L (hash_api_key api_key) c)).1
        ≡ verdict (hash_api_key api_key) (answer (hash_api_key api_key))
  unfolding invalidate_cache get_from_cache
  resolve_api_key-invalidate_cache h api_key now later answer c e =
      looked_up h api_key now later answer (L.remove (h api_key) c) e gone
    where
      gone : (get_from_cache L (h api_key) now (L.remove (h api_key) c)).1 ≡ none
      gone = rw (get_from_cache, laws.held-remove_self (h api_key) c)
