-- ===== src/Proxy/Select.antt =====
-- selectByCost, blendedPrice and weightForPrice of internal/proxy/providerrouter.go. `rand` is the
-- value that the random source returns; `none` is the panic on an empty list of candidates.
use mathlib.Core.Path.{subst}
use mathlib.Core.List.Memᴰ.{head, tail}
use majordomo_gateway.Base.{
  refl, ◌≡◌, ◌⊎◌, Bool, true, false, Option, none, some, List, [], ◌∷◌, ◌++◌, if◌then◌else◌, Str,
  str_lt, Float, sort_by, Memᴰ, ap, inl, ◌≢◌, Bool-cases, inr, Memᴰ-sort_by, arith, sort_by-Memᴰ,
}
use majordomo_gateway.Pricing.Types.{ModelPricing, Endpoint}

module _ (F : Float) (price : Str → Str → Option (ModelPricing F.R)) where
  open F use {R, ratio, add, mul, div, lt, le, eq}

  unfoldable pub blended_price : Endpoint → R
  blended_price ep = elim (price ep.provider ep.provider_model_id) [
    | none ↦ ratio 1_000_000_000 1
    | some p ↦ add p.input_price_per_million p.output_price_per_million
  ]

  unfoldable pub weight_for_price : R → R
  weight_for_price p = if le p (ratio 0 1) then ratio 1_000_000 1 else div (ratio 1 1) p

  -- The order of the candidates: by price, then by the provider's name.
  unfoldable pub cheaper : Endpoint → Endpoint → Bool
  unfolding blended_price
  cheaper a b =
      if eq (blended_price a) (blended_price b)
      then str_lt a.provider b.provider
      else lt (blended_price a) (blended_price b)

  unfoldable pub weight : Endpoint → R
  unfolding weight_for_price blended_price
  weight ep = weight_for_price (blended_price ep)

  -- `total += w`, and the same sums as `acc` in the second loop
  unfoldable pub sum_weights : R → List Endpoint → R
  sum_weights acc [] = acc
  sum_weights acc (ep ∷ eps) = sum_weights (add acc (weight ep)) eps

  -- The second loop; `last` is the fallback behind it.
  unfoldable pub pick : R → R → Endpoint → List Endpoint → Endpoint
  pick target acc last [] = last
  pick target acc last (ep ∷ eps) =
      let acc' = add acc (weight ep) in
      let rest = pick target acc' ep eps in if lt target acc' then ep else rest

  unfoldable pub select_from : R → List Endpoint → Option Endpoint
  unfolding sum_weights pick weight
  select_from rand [] = none
  select_from rand (ep ∷ eps) =
      let total = sum_weights (ratio 0 1) (ep ∷ eps) in
      some (if le total (ratio 0 1) then ep else pick (mul rand total) (ratio 0 1) ep (ep ∷ eps))

  unfoldable pub select_by_cost : R → List Endpoint → Option Endpoint
  unfolding select_from cheaper
  select_by_cost rand candidates = select_from rand (sort_by cheaper candidates)

  -- What it means that the target falls on an endpoint of the list: the sum of the weights up to
  -- and with it is above the target, and the sum before it, if there is one, is not.
  pub record Lands (target start : R) (eps : List Endpoint) (ep : Endpoint) : Type 0 where
    pub before : List Endpoint
    pub after : List Endpoint
    pub split : eps ≡ before ++ ep ∷ after
    pub reaches : lt target (sum_weights start (before ++ ep ∷ [])) ≡ true
    pub beyond : (before ≡ []) ⊎ (lt target (sum_weights start before) ≡ false)

  pick-Memᴰ :
      (target acc : R) (last ep : Endpoint) (eps : List Endpoint)
      → Memᴰ (pick target acc last (ep ∷ eps)) (ep ∷ eps)
  unfolding pick
  pick-Memᴰ target acc last ep [] = elim (Bool-cases (lt target (add acc (weight ep)))) [
    | inl e ↦ rw e (head refl)
    | inr e ↦ rw e (head refl)
  ]
  pick-Memᴰ target acc last ep (ep' ∷ eps) = elim (Bool-cases (lt target (add acc (weight ep)))) [
    | inl e ↦ rw e (head refl)
    | inr e ↦ rw e (tail (pick-Memᴰ target (add acc (weight ep)) ep ep' eps))
  ]

  -- Behind an endpoint that the target is not on.
  Lands-cons :
      (target acc : R) (ep : Endpoint) (eps : List Endpoint) {ep' : Endpoint}
      → lt target (add acc (weight ep)) ≡ false
      → Lands target (add acc (weight ep)) eps ep'
      → Lands target acc (ep ∷ eps) ep'
  unfolding sum_weights
  Lands-cons target acc ep eps h l = record {
    before = ep ∷ l.before;
    after = l.after;
    split = ap (◌∷◌ ep) l.split;
    reaches = l.reaches;
    beyond = inr (elim l.beyond [ inl none_before ↦ rw none_before h | inr k ↦ k ]);
  }

  pick-Lands :
      (target acc : R) (last ep : Endpoint) (eps : List Endpoint)
      → lt target (sum_weights acc (ep ∷ eps)) ≡ true
      → Lands target acc (ep ∷ eps) (pick target acc last (ep ∷ eps))
  unfolding pick sum_weights
  pick-Lands target acc last ep [] h =
      rw h (record { before = []; after = []; split = refl; reaches = h; beyond = inl refl })
  pick-Lands target acc last ep (ep' ∷ eps) h =
      elim (Bool-cases (lt target (add acc (weight ep)))) [
        | inl e ↦ rw e (record {
          before = [];
          after = ep' ∷ eps;
          split = refl;
          reaches = e;
          beyond = inl refl;
        })
        | inr e ↦ rw e (
            Lands-cons target acc ep (ep' ∷ eps) e
              (pick-Lands target (add acc (weight ep)) ep ep' eps h))
      ]

  select_from-Memᴰ :
      (rand : R) (eps : List Endpoint) {ep : Endpoint}
      → select_from rand eps ≡ some ep
      → Memᴰ ep eps
  unfolding select_from
  select_from-Memᴰ rand [] h = cc
  select_from-Memᴰ rand (e ∷ eps) {ep} h =
      let total = sum_weights (ratio 0 1) (e ∷ eps) in
      elim (Bool-cases (le total (ratio 0 1))) [
        | inl low ↦ let same : ep ≡ e = ground arith in head same
        | inr high ↦
            let same : pick (mul rand total) (ratio 0 1) e (e ∷ eps) ≡ ep = ground arith in
            rw same at (pick-Memᴰ (mul rand total) (ratio 0 1) e e eps)
      ]

  select_from-ne-none :
      (rand : R) (eps : List Endpoint) {ep : Endpoint} → Memᴰ ep eps → select_from rand eps ≢ none
  unfolding select_from
  select_from-ne-none rand [] m = elim m [ ]
  select_from-ne-none rand (e ∷ eps) m = λ h. cc

  select_from-Lands :
      (rand : R) (eps : List Endpoint) {ep : Endpoint}
      → le (sum_weights (ratio 0 1) eps) (ratio 0 1) ≡ false
      → lt (mul rand (sum_weights (ratio 0 1) eps)) (sum_weights (ratio 0 1) eps) ≡ true
      → select_from rand eps ≡ some ep
      → Lands (mul rand (sum_weights (ratio 0 1) eps)) (ratio 0 1) eps ep
  unfolding select_from
  select_from-Lands rand [] pos below h = cc
  select_from-Lands rand (e ∷ eps) {ep} pos below h =
      let target = mul rand (sum_weights (ratio 0 1) (e ∷ eps)) in
      let same : pick target (ratio 0 1) e (e ∷ eps) ≡ ep = ground arith in
      subst (Lands target (ratio 0 1) (e ∷ eps)) same (pick-Lands target (ratio 0 1) e e eps below)

  -- The router picks one of the candidates, and picks one whenever there is any.
  pub select_by_cost-Memᴰ :
      (rand : R) (candidates : List Endpoint) {ep : Endpoint}
      → select_by_cost rand candidates ≡ some ep
      → Memᴰ ep candidates
  unfolding select_by_cost
  select_by_cost-Memᴰ rand candidates h =
      Memᴰ-sort_by cheaper candidates (select_from-Memᴰ rand (sort_by cheaper candidates) h)

  pub select_by_cost-ne-none :
      (rand : R) (ep : Endpoint) (eps : List Endpoint) → select_by_cost rand (ep ∷ eps) ≢ none
  unfolding select_by_cost
  select_by_cost-ne-none rand ep eps =
      select_from-ne-none rand (sort_by cheaper (ep ∷ eps)) (sort_by-Memᴰ cheaper (head refl))

  -- The choice is the cost-weighted one: in the order of prices, the target, a fraction of the total
  -- weight, falls on the chosen endpoint's share. This holds where the weights have a positive sum
  -- and the random fraction of it is below it.
  pub select_by_cost-Lands :
      (rand : R) (candidates : List Endpoint) {ep : Endpoint}
      → let sorted = sort_by cheaper candidates in
        let total = sum_weights (ratio 0 1) sorted in
        le total (ratio 0 1) ≡ false
        → lt (mul rand total) total ≡ true
        → select_by_cost rand candidates ≡ some ep
        → Lands (mul rand total) (ratio 0 1) sorted ep
  unfolding select_by_cost
  select_by_cost-Lands rand candidates pos below h =
      select_from-Lands rand (sort_by cheaper candidates) pos below h
