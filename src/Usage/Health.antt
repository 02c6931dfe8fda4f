-- ===== src/Usage/Health.antt =====
-- GetEndpointHealth of internal/repositories/endpoint_health.go over the logged rows, and what it is for
-- the router.
use mathlib.Core.List.Memᴰ.{head, tail}
use mathlib.Core.Path.{subst}
use majordomo_gateway.Base.{
  ℕ, ◌≡◌, sym, ap, ◌∙◌, Bool, false, ◌&&◌, Bool-cases, Option-cases, inl, inr, some, List, [], ◌∷◌,
  map, Memᴰ, arith, if◌then◌else◌, Str, ◌==◌, eq_iff, Float, leb, ltb, filter, All, lt_int,
  some_injective, option_clash,
}
use majordomo_gateway.Logs.Types.{RequestLog}
use majordomo_gateway.Pricing.Types.{Endpoint}
use majordomo_gateway.Proxy.Health.{
  EndpointHealth, is_healthy, snapshot_of, NoNul, NoNulRows, last_row, health_min_samples,
  is_healthy-eq-false_iff,
}
use majordomo_gateway.Usage.Aggregate.{sum_int, group_by, group_into}
use majordomo_gateway.Usage.Groups.{group_by-rows, Memᴰ-map}
use majordomo_gateway.Usage.Reports.{Functions, same_pair}
use majordomo_gateway.Usage.Reports.Laws.{same_pair_iff}

pair_eq : {a b c d : Str} → a ≡ b → c ≡ d → ◌≡◌ {A = Str × Str} (a, c) (b, d)
pair_eq e f = cc

module _ (F : Float) (db : Functions F.R) where
  open F use {R, div, of_int, le, ratio}

  abbrev pub pair_of : RequestLog R → Str × Str
  pair_of row = (row.provider, row.model)

  -- WHERE requested_at > $1
  unfoldable pub recent : ℕ → List (RequestLog R) → List (RequestLog R)
  recent since rows = filter (λ row. ltb since row.requested_at) rows

  -- count(*) FILTER (WHERE status_code >= 500)::float8 / count(*)
  unfoldable pub server_error_rate : List (RequestLog R) → R
  unfolding sum_int
  server_error_rate rows =
      div (of_int (sum_int (λ row. if leb 500 row.status_code then 1 else 0) rows))
        (of_int (sum_int (λ row. 1) rows))

  unfoldable pub health_of : (Str × Str) × List (RequestLog R) → EndpointHealth R
  unfolding sum_int server_error_rate
  health_of group = record {
    provider = group.0.0;
    model = group.0.1;
    sample_count = sum_int (λ row. 1) (group.1);
    avg_latency_ms = db.avg (map (λ row. row.response_time_ms) (group.1));
    error_rate = server_error_rate (group.1);
  }

  unfoldable pub get_endpoint_health : ℕ → List (RequestLog R) → List (EndpointHealth R)
  unfolding recent health_of group_by same_pair
  get_endpoint_health since rows = map health_of (group_by same_pair pair_of (recent since rows))

  -- The rows of an endpoint.
  abbrev pub rows_of : Endpoint → List (RequestLog R) → List (RequestLog R)
  rows_of ep rows = filter (λ row. same_pair (pair_of row) (ep.provider, ep.provider_model_id)) rows

  last_row-Memᴰ :
      (p m : Str) (row : EndpointHealth R) (rows : List (EndpointHealth R))
      → last_row p m rows ≡ some row
      → Memᴰ row rows × (row.provider ≡ p) × (row.model ≡ m)
  unfolding last_row
  last_row-Memᴰ p m row [] h = absurd (option_clash h)
  last_row-Memᴰ p m row (r ∷ rows) h = elim (Option-cases (last_row p m rows)) [
    | inr (s, e) ↦
        let (there, a, b) = last_row-Memᴰ p m row rows (e ∙ rw e at h) in (tail there, a, b)
    | inl e ↦ elim (Bool-cases (r.provider == p && r.model == m)) [
      | inl f ↦
          let same = some_injective (rw (e, f) at h) in
          (
            head (sym same),
            ap (λ x. x.provider) (sym same) ∙ ground (arith, f, eq_iff r.provider p),
            ap (λ x. x.model) (sym same) ∙ ground (arith, f, eq_iff r.model m),
          )
      | inr f ↦ absurd (option_clash (rw (e, f) at h))
    ]
  ]

  NoNulRows-group_into :
      (k : Str × Str) (row : RequestLog R) (groups : List ((Str × Str) × List (RequestLog R)))
      → NoNul (k.0)
      → NoNulRows (map health_of groups)
      → NoNulRows (map health_of (group_into same_pair k row groups))
  unfolding group_into health_of
  NoNulRows-group_into k row [] n h = (n, tt)
  NoNulRows-group_into k row ((j, rows) ∷ groups) n (m, h) = elim (Bool-cases (same_pair j k)) [
    | inl e ↦ rw e (m, h)
    | inr e ↦ rw e (m, NoNulRows-group_into k row groups n h)
  ]

  NoNulRows-group_by :
      (rows : List (RequestLog R))
      → All (λ row. NoNul row.provider) rows
      → NoNulRows (map health_of (group_by same_pair pair_of rows))
  unfolding group_by
  NoNulRows-group_by [] a = tt
  NoNulRows-group_by (row ∷ rows) (n, a) =
      NoNulRows-group_into (pair_of row) row (group_by same_pair pair_of rows) n
        (NoNulRows-group_by rows a)

  All-filter :
      (test : RequestLog R → Bool) (rows : List (RequestLog R))
      → All (λ row. NoNul row.provider) rows
      → All (λ row. NoNul row.provider) (filter test rows)
  unfolding filter
  All-filter test [] a = tt
  All-filter test (row ∷ rows) (n, a) = elim (Bool-cases (test row)) [
    | inl e ↦ rw e (n, All-filter test rows a)
    | inr e ↦ rw e (All-filter test rows a)
  ]

  -- The row of an endpoint is made of the requests to it.
  last_row-health_of :
      (ep : Endpoint) (row : EndpointHealth R) (rows : List (RequestLog R))
      → last_row ep.provider ep.provider_model_id (map health_of (group_by same_pair pair_of rows))
        ≡ some row
      → (row.sample_count ≡ sum_int (λ r. 1) (rows_of ep rows))
        × (row.error_rate ≡ server_error_rate (rows_of ep rows))
  unfolding health_of
  last_row-health_of ep row rows h =
      let (there, a, b) = last_row-Memᴰ ep.provider ep.provider_model_id row _ h in
      let ((k, group), m, made) = Memᴰ-map health_of (group_by same_pair pair_of rows) there in
      let key : k ≡ (ep.provider, ep.provider_model_id) =
        pair_eq (ap (λ x. x.provider) made ∙ a) (ap (λ x. x.model) made ∙ b) in
      let mine : group ≡ rows_of ep rows =
        group_by-rows same_pair same_pair_iff pair_of k group rows m
        ∙ ap (λ j. filter (λ r. same_pair (pair_of r) j) rows) key in
      (
        ap (λ x. x.sample_count) (sym made) ∙ ap (sum_int (λ r. 1)) mine,
        ap (λ x. x.error_rate) (sym made) ∙ ap server_error_rate mine,
      )

  -- An endpoint is gated out only where at least twenty requests to it were logged in the window, as a
  -- signed 64-bit count, and the share of server errors among them is not at most a fifth, as floats
  -- compare: whatever else was logged. No provider's name holds a zero byte.
  pub is_healthy-get_endpoint_health :
      (since later : ℕ) (ep : Endpoint) (rows : List (RequestLog R))
      → NoNul ep.provider
      → All (λ row. NoNul row.provider) rows
      → is_healthy F (snapshot_of F (get_endpoint_health since rows) later) ep ≡ false
      → (lt_int (sum_int (λ r. 1) (rows_of ep (recent since rows))) health_min_samples ≡ false)
        × (le (server_error_rate (rows_of ep (recent since rows))) (ratio 20 100) ≡ false)
  unfolding get_endpoint_health recent
  is_healthy-get_endpoint_health since later ep rows hp a h =
      let fresh = recent since rows in
      let clean =
        NoNulRows-group_by fresh (All-filter (λ row. ltb since row.requested_at) rows a) in
      let (row, e, few, high) =
        (is_healthy-eq-false_iff F (map health_of (group_by same_pair pair_of fresh)) later ep hp
            clean).0
          h in
      let (count, rate) = last_row-health_of ep row fresh e in
      (
        subst (λ n. lt_int n health_min_samples ≡ false) count few,
        subst (λ r. le r (ratio 20 100) ≡ false) rate high,
      )
