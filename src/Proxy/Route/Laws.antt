-- ===== src/Proxy/Route/Laws.antt =====
-- What the router promises of its choice, and when it makes one.
use majordomo_gateway.Base.{
  [], ◌∷◌, ◌≡◌, ◌⊎◌, true, false, List, Memᴰ, Float, filter, filter-Memᴰ, Memᴰ-filter, Bool-cases,
  Option-cases, is_empty, inl, arith, inr, ◌↔◌, is_empty-Memᴰ, Memᴰ-is_empty, ◌∷◌, length, ◌≢◌,
  is_empty-filter_iff, some_Memᴰ, Option, Str, some,
}
use majordomo_gateway.Pricing.Types.{Endpoint}
use majordomo_gateway.Proxy.Health.{HealthSnapshot, is_healthy, get_health}
use majordomo_gateway.Proxy.Route.{
  DataPolicy, RouteDecision, Env, complies, decision, has_credential, choose, route_candidates,
  route_eligible, Reason, decided, select_by_cost, no_usable_endpoint, all_unhealthy,
  no_compliant_endpoint, cost_weighted, panicked, route,
}
use majordomo_gateway.Proxy.Select.{select_by_cost, select_by_cost-Memᴰ, select_by_cost-ne-none}

module _ {F : Float} (env : Env F) (health : HealthSnapshot F.R) (policy : DataPolicy) where
  -- An endpoint that may serve: one with a credential, within the policy.
  pub record IsEligible (eps : List Endpoint) (ep : Endpoint) : Type 0 where
    pub listed : Memᴰ ep eps
    pub credentialed : has_credential env ep ≡ true
    pub compliant : complies policy ep ≡ true

  -- An endpoint that a decision may name, and the decision names nothing else.
  pub record IsChosen (eps : List Endpoint) (d : RouteDecision) : Type 0 where
    pub ep : Endpoint
    pub eligible : IsEligible eps ep
    pub same : d ≡ decision ep d.reason
    -- healthy, or no eligible endpoint is
    pub healthy :
        (is_healthy F health ep ≡ true)
        ⊎ ((other : Endpoint) → IsEligible eps other → is_healthy F health other ≡ false)

  Memᴰ-IsEligible :
      (eps : List Endpoint) {ep : Endpoint}
      → Memᴰ ep (filter (complies policy) (filter (has_credential env) eps))
      → IsEligible eps ep
  Memᴰ-IsEligible eps m =
      let (m', compliant) = filter-Memᴰ (complies policy) (filter (has_credential env) eps) m in
      let (listed, credentialed) = filter-Memᴰ (has_credential env) eps m' in
      record { listed = listed; credentialed = credentialed; compliant = compliant }

  IsEligible-Memᴰ :
      (eps : List Endpoint) {ep : Endpoint}
      → IsEligible eps ep
      → Memᴰ ep (filter (complies policy) (filter (has_credential env) eps))
  IsEligible-Memᴰ eps e =
      Memᴰ-filter (complies policy) (Memᴰ-filter (has_credential env) e.listed e.credentialed)
        e.compliant

  healthy_empty :
      (eps : List Endpoint) {other : Endpoint}
      → is_empty (
          filter (is_healthy F health) (filter (complies policy) (filter (has_credential env) eps)))
        ≡ true
      → IsEligible eps other
      → is_healthy F health other ≡ false
  healthy_empty eps {other} h e = elim (Bool-cases (is_healthy F health other)) [
    | inl up ↦
        absurd (is_empty-Memᴰ _ h (Memᴰ-filter (is_healthy F health) (IsEligible-Memᴰ eps e) up))
    | inr down ↦ down
  ]

  choose-decided :
      (pool : List Endpoint) (reason : Reason) {d : RouteDecision}
      → choose env pool reason ≡ decided d
      → (ep : Endpoint) × Memᴰ ep pool × (d ≡ decision ep d.reason)
  unfolding choose
  choose-decided pool reason {d} h =
      elim (Option-cases (select_by_cost F env.price env.rand pool)) [
        | inl e ↦ absurd (ground arith)
        | inr (ep, e) ↦ (ep, select_by_cost-Memᴰ F env.price env.rand pool e, ground arith)
      ]

  -- A decision names a candidate that has a credential and satisfies the policy; and it is healthy,
  -- unless no such candidate is.
  pub route_candidates-IsChosen :
      (eps : List Endpoint) {d : RouteDecision}
      → route_candidates env health policy eps ≡ decided d
      → IsChosen eps d
  unfolding route_candidates route_eligible
  route_candidates-IsChosen eps {d} h =
      let eligible = filter (complies policy) (filter (has_credential env) eps) in
      let healthy = filter (is_healthy F health) eligible in
      elim (Bool-cases (is_empty healthy)) [
        | inl none_healthy ↦
            let (ep, m, same) =
              choose-decided eligible (all_unhealthy (length eligible)) (ground arith) in
            record {
              ep = ep;
              eligible = Memᴰ-IsEligible eps m;
              same = same;
              healthy = inr (λ other e. healthy_empty eps none_healthy e);
            }
        | inr some_healthy ↦
            let (ep, m, same) =
              choose-decided healthy (cost_weighted (length healthy) (length eligible))
                (ground arith) in
            let (m', up) = filter-Memᴰ (is_healthy F health) eligible m in
            record { ep = ep; eligible = Memᴰ-IsEligible eps m'; same = same; healthy = inl up }
      ]

  choose_total :
      (pool : List Endpoint) (reason : Reason)
      → is_empty pool ≡ false
      → (d : RouteDecision) × (choose env pool reason ≡ decided d)
  unfolding choose
  choose_total [] reason h = cc
  choose_total (ep ∷ pool) reason h =
      elim (Option-cases (select_by_cost F env.price env.rand (ep ∷ pool))) [
        | inl e ↦ absurd (select_by_cost-ne-none F env.price env.rand ep pool e)
        | inr (ep', e) ↦ (decision ep' reason, rw (e, choose))
      ]

  route_eligible_total :
      (eligible : List Endpoint)
      → is_empty eligible ≡ false
      → (d : RouteDecision) × (route_eligible env health eligible ≡ decided d)
  unfolding route_eligible
  route_eligible_total eligible h =
      let healthy = filter (is_healthy F health) eligible in
      elim (Bool-cases (is_empty healthy)) [
        | inl none_healthy ↦
            let (d, e) = choose_total eligible (all_unhealthy (length eligible)) h in
            (d, ground arith)
        | inr some_healthy ↦
            let (d, e) =
              choose_total healthy (cost_weighted (length healthy) (length eligible))
                some_healthy in
            (d, ground arith)
      ]

  IsEligible-cases :
      (eps : List Endpoint) (ep : Endpoint)
      → IsEligible eps ep
      → (d : RouteDecision) × (route_candidates env health policy eps ≡ decided d)
  unfolding route_candidates
  IsEligible-cases eps ep e =
      let credentialed = filter (has_credential env) eps in
      let eligible = filter (complies policy) credentialed in
      let some_credentialed : is_empty credentialed ≡ false =
        Memᴰ-is_empty (Memᴰ-filter (has_credential env) e.listed e.credentialed) in
      let some_eligible : is_empty eligible ≡ false = Memᴰ-is_empty (IsEligible-Memᴰ eps e) in
      let (d, k) = route_eligible_total eligible some_eligible in (d, ground arith)

  -- The router decides exactly when some candidate is eligible: health alone never makes it fail.
  route_candidates_decided_iff :
      (eps : List Endpoint)
      → ((d : RouteDecision) × (route_candidates env health policy eps ≡ decided d))
        ↔ ((ep : Endpoint) × IsEligible eps ep)
  route_candidates_decided_iff eps = (
    λ (d, h). let c = route_candidates-IsChosen eps h in (c.ep, c.eligible),
    λ (ep, e). IsEligible-cases eps ep e,
  )

  outcomes :
      (eps : List Endpoint)
      → let credentialed = filter (has_credential env) eps in
        let none_eligible = is_empty (filter (complies policy) credentialed) in
        ((route_candidates env health policy eps ≡ no_usable_endpoint)
          ↔ (is_empty credentialed ≡ true))
        × ((route_candidates env health policy eps ≡ no_compliant_endpoint)
            ↔ ((is_empty credentialed ≡ false) × (none_eligible ≡ true)))
        × (route_candidates env health policy eps ≢ panicked)
  unfolding route_candidates
  outcomes eps =
      let eligible = filter (complies policy) (filter (has_credential env) eps) in
      elim (Bool-cases (is_empty eligible)) [
        | inl e ↦ ground arith
        | inr e ↦ let (d, k) = route_eligible_total eligible e in ground arith
      ]

  filters_apart :
      (eps : List Endpoint)
      → (is_empty (filter (has_credential env) eps) ≡ false)
        × (is_empty (filter (complies policy) (filter (has_credential env) eps)) ≡ true)
      → ((ep : Endpoint) × Memᴰ ep eps × (has_credential env ep ≡ true))
        × ((ep : Endpoint)
            → Memᴰ ep eps
            → has_credential env ep ≡ true
            → complies policy ep ≡ false)
  filters_apart eps (some_one, none_compliant) =
      let (ep, m) = some_Memᴰ _ some_one in
      let (listed, key) = filter-Memᴰ (has_credential env) eps m in
      (
        (ep, listed, key),
        λ ep' m' key'.
            (is_empty-filter_iff (complies policy) (filter (has_credential env) eps)).0
              none_compliant ep' (Memᴰ-filter (has_credential env) m' key'),
      )

  filters_meet :
      (eps : List Endpoint)
      → ((ep : Endpoint) × Memᴰ ep eps × (has_credential env ep ≡ true))
      → ((ep : Endpoint) → Memᴰ ep eps → has_credential env ep ≡ true → complies policy ep ≡ false)
      → (is_empty (filter (has_credential env) eps) ≡ false)
        × (is_empty (filter (complies policy) (filter (has_credential env) eps)) ≡ true)
  filters_meet eps (ep, m, key) h = (
    Memᴰ-is_empty (Memᴰ-filter (has_credential env) m key),
    (is_empty-filter_iff (complies policy) (filter (has_credential env) eps)).1
        λ ep' m'. let (listed, key') = filter-Memᴰ (has_credential env) eps m' in h ep' listed key',
  )

  -- The two errors tell the two hard filters apart. No usable endpoint: no candidate has a
  -- credential. No compliant endpoint: some candidate has one, and none that has one satisfies the
  -- policy. And the choice from an empty pool, which would panic, is never reached.
  pub route_candidates_errors :
      (eps : List Endpoint)
      → ((route_candidates env health policy eps ≡ no_usable_endpoint)
          ↔ ((ep : Endpoint) → Memᴰ ep eps → has_credential env ep ≡ false))
        × ((route_candidates env health policy eps ≡ no_compliant_endpoint) ↔ (
            ((ep : Endpoint) × Memᴰ ep eps × (has_credential env ep ≡ true))
            × ((ep : Endpoint)
                → Memᴰ ep eps
                → has_credential env ep ≡ true
                → complies policy ep ≡ false)))
        × (route_candidates env health policy eps ≢ panicked)
  route_candidates_errors eps =
      let (usable, compliant, no_panic) = outcomes eps in
      let credentials = is_empty-filter_iff (has_credential env) eps in
      (
        (λ h. credentials.0 (usable.0 h), λ h. usable.1 (credentials.1 h)),
        (
          λ h. filters_apart eps (compliant.0 h),
          λ (some_one, h). compliant.1 (filters_meet eps some_one h),
        ),
        no_panic,
      )

-- The router decides only for a slug of the catalog, on the health that it serves at that time, and
-- what it decides is a chosen candidate of that slug.
route_decided :
    {F : Float} (env : Env F) (snapshot : Option (HealthSnapshot F.R)) (model : Str)
    (policy : DataPolicy) {d : RouteDecision}
    → (route env snapshot model policy).1 ≡ decided d
    → (eps : List Endpoint) × (env.candidates model ≡ some eps)
      × IsChosen env (get_health env.store env.now env.later snapshot).1 policy eps d
unfolding route
route_decided env snapshot model policy h = elim (Option-cases (env.candidates model)) [
  | inl e ↦ absurd (ground arith)
  | inr (eps, e) ↦ (
    eps,
    e,
    route_candidates-IsChosen env (get_health env.store env.now env.later snapshot).1 policy eps
        (rw (e, route) at h),
  )
]
