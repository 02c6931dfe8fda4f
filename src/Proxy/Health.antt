-- ===== src/Proxy/Health.antt =====
-- getHealth, isHealthy and healthKey of internal/proxy/providerrouter.go, with the aggregate of
-- internal/models/routing.go. Times are in nanoseconds of a clock that does not go back.
use majordomo_gateway.Base.{
  ℕ, ◌+◌, ◌-◌, ◌<◌, ◌≡◌, refl, Bool, true, false, Option, none, some, List, [], ◌∷◌, ◌++◌, arith,
  if◌then◌else◌, ltb, lt_int, Str, ◌==◌, eq_iff, Dict, lookup, insert, lookup-insert, Float,
  or_else, ◌&&◌, ◌↔◌, Option-cases, inl, inr, ◌≤◌,
}
use majordomo_gateway.Pricing.Types.{Endpoint}

pub record EndpointHealth (R : Type 0) : Type 0 where
  pub provider : Str
  pub model : Str
  pub sample_count : ℕ
  pub avg_latency_ms : R
  pub error_rate : R

pub record HealthSnapshot (R : Type 0) : Type 0 where
  pub by_key : Dict (EndpointHealth R)
  pub fetched_at : ℕ

abbrev pub health_window : ℕ
health_window = 300_000_000_000

abbrev pub health_cache_ttl : ℕ
health_cache_ttl = 30_000_000_000

abbrev pub health_min_samples : ℕ
health_min_samples = 20

-- `provider + "\x00" + model`
unfoldable pub health_key : Str → Str → Str
health_key provider model = provider ++ 0 ∷ model

module _ {R : Type 0} where
  -- The loop over the rows: a later row of the same pair replaces an earlier one.
  unfoldable pub index_rows :
      Dict (EndpointHealth R) → List (EndpointHealth R) → Dict (EndpointHealth R)
  index_rows m [] = m
  index_rows m (row ∷ rows) = index_rows (insert (health_key row.provider row.model) row m) rows

  -- What follows a query: the snapshot that is cached afterwards, and the one that is served.
  unfoldable pub refresh :
      ℕ
      → Option (List (EndpointHealth R))
      → Option (HealthSnapshot R)
      → Option (HealthSnapshot R) × HealthSnapshot R
  refresh later (some rows) snapshot =
      let s : HealthSnapshot R = record { by_key = index_rows [] rows; fetched_at = later } in
      (some s, s)
  refresh later none (some s) = (some s, s)
  refresh later none none = (none, record { by_key = []; fetched_at = later })

  -- `store` is the query, which takes the start of its window; `now` and `later` are the clock
  -- before and after it.
  unfoldable pub get_health :
      (ℕ → Option (List (EndpointHealth R)))
      → ℕ
      → ℕ
      → Option (HealthSnapshot R)
      → Option (HealthSnapshot R) × HealthSnapshot R
  unfolding refresh index_rows
  get_health store now later none = refresh later (store (now - health_window)) none
  get_health store now later (some s) =
      let answer = refresh later (store (now - health_window)) (some s) in
      if ltb (now - s.fetched_at) health_cache_ttl then (some s, s) else answer

module _ (F : Float) where
  open F use {R, ratio, le}

  unfoldable pub is_healthy : HealthSnapshot R → Endpoint → Bool
  is_healthy h ep = elim (lookup (health_key ep.provider ep.provider_model_id) h.by_key) [
    | none ↦ true
    | some stat ↦
        if lt_int stat.sample_count health_min_samples
        then true
        else le stat.error_rate (ratio 20 100)
  ]

-- No byte is zero.
abbrev pub NoNul : Str → Type 0
NoNul [] = Unit
NoNul (c ∷ s) = (0 < c) × NoNul s

-- Keys of different pairs differ, if the provider names hold no zero byte.
health_key_injective :
    (p q m n : Str) → NoNul p → NoNul q → health_key p m ≡ health_key q n → (p ≡ q) × (m ≡ n)
unfolding health_key
health_key_injective [] [] m n hp hq e = ground arith
health_key_injective [] (d ∷ q) m n hp (hd, hq) e = ground arith
health_key_injective (c ∷ p) [] m n (hc, hp) hq e = ground arith
health_key_injective (c ∷ p) (d ∷ q) m n (hc, hp) (hd, hq) e =
    ground (arith, health_key_injective p q m n hp hq)

module _ {R : Type 0} where
  -- The last row of a pair.
  unfoldable pub last_row : Str → Str → List (EndpointHealth R) → Option (EndpointHealth R)
  last_row p m [] = none
  last_row p m (row ∷ rows) =
      or_else (last_row p m rows) (if row.provider == p && row.model == m then some row else none)

  abbrev pub NoNulRows : List (EndpointHealth R) → Type 0
  NoNulRows [] = Unit
  NoNulRows (row ∷ rows) = NoNul row.provider × NoNulRows rows

  lookup-index_rows :
      (d : Dict (EndpointHealth R)) (rows : List (EndpointHealth R)) (p m : Str)
      → NoNul p
      → NoNulRows rows
      → lookup (health_key p m) (index_rows d rows)
        ≡ or_else (last_row p m rows) (lookup (health_key p m) d)
  unfolding index_rows last_row
  lookup-index_rows d [] p m hp h = refl
  lookup-index_rows d (row ∷ rows) p m hp (hr, h) = ground (
    arith,
    lookup-index_rows (insert (health_key row.provider row.model) row d) rows p m hp h,
    lookup-insert (health_key row.provider row.model) (health_key p m) row d,
    eq_iff (health_key row.provider row.model) (health_key p m),
    eq_iff row.provider p,
    eq_iff row.model m,
    health_key_injective row.provider p row.model m hr hp,
  )

  -- The cache holds nothing, or nothing fresh enough.
  abbrev pub IsDue : ℕ → Option (HealthSnapshot R) → Type 0
  IsDue now none = Unit
  IsDue now (some s) = health_cache_ttl ≤ now - s.fetched_at

  -- After a call that queried the store with success, a call within the TTL asks the store nothing:
  -- whatever a query would give, the same snapshot is served and stays cached.
  get_health_cached :
      (store other : ℕ → Option (List (EndpointHealth R))) (now later now' later' : ℕ)
      (rows : List (EndpointHealth R)) (snapshot : Option (HealthSnapshot R))
      → IsDue now snapshot
      → store (now - health_window) ≡ some rows
      → now' < later + health_cache_ttl
      → get_health other now' later' (get_health store now later snapshot).0
        ≡ get_health store now later snapshot
  unfolding get_health refresh
  get_health_cached store other now later now' later' rows none due e h = ground arith
  get_health_cached store other now later now' later' rows (some s) due e h = ground arith

  -- A failed query never loses or replaces the snapshot that is there.
  get_health_stale :
      (store : ℕ → Option (List (EndpointHealth R))) (now later : ℕ) (s : HealthSnapshot R)
      → store (now - health_window) ≡ none
      → get_health store now later (some s) ≡ (some s, s)
  unfolding get_health refresh
  get_health_stale store now later s e = ground arith

module _ (F : Float) where
  open F use {R, ratio, le}

  abbrev pub snapshot_of : List (EndpointHealth R) → ℕ → HealthSnapshot R
  snapshot_of rows later = (refresh later (some rows) none).1

  -- An endpoint is gated out exactly when the last row of its provider and model has at least the
  -- minimum of samples and an error rate that is not within the limit. No provider's name holds a
  -- zero byte.
  pub is_healthy-eq-false_iff :
      (rows : List (EndpointHealth R)) (later : ℕ) (ep : Endpoint)
      → NoNul ep.provider
      → NoNulRows rows
      → (is_healthy F (snapshot_of rows later) ep ≡ false) ↔ (
          (row : EndpointHealth R) × (last_row ep.provider ep.provider_model_id rows ≡ some row)
          × (lt_int row.sample_count health_min_samples ≡ false)
          × (le row.error_rate (ratio 20 100) ≡ false))
  unfolding is_healthy refresh lookup
  is_healthy-eq-false_iff rows later ep hp h =
      elim (Option-cases (last_row ep.provider ep.provider_model_id rows)) [
        | inl e ↦ (
          λ k.
              absurd
                (ground (arith, lookup-index_rows [] rows ep.provider ep.provider_model_id hp h)),
          λ (row, e', _, _). absurd (ground arith),
        )
        | inr (row, e) ↦ (
          λ k. (
            row,
            e,
            ground (arith, lookup-index_rows [] rows ep.provider ep.provider_model_id hp h),
            ground (arith, lookup-index_rows [] rows ep.provider ep.provider_model_id hp h),
          ),
          λ (row', e', few, high).
              ground (arith, lookup-index_rows [] rows ep.provider ep.provider_model_id hp h),
        )
      ]
