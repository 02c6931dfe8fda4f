-- ===== src/Usage/Service/Laws.antt =====
-- What a query resolves to, the pages that are asked for, and the errors that a client sees.
use mathlib.Core.Path.{subst}
use majordomo_gateway.Base.{
  ℕ, ◌+◌, ◌-◌, ◌*◌, ◌/◌, ◌≤◌, ◌<◌, ◌≡◌, ◌⊎◌, refl, sym, ap, ◌∙◌, true, false, Bool-cases, ◌||◌, inl,
  inr, Option, none, some, List, [], ◌∷◌, arith, if◌then◌else◌, Str, lit, ◌==◌, eq_iff, is_empty,
  length, ltb, int_half, int_mod, All,
}
use majordomo_gateway.Usage.Filter.{MetadataFilter, UsageFilter}
use majordomo_gateway.Usage.Service.{
  UsageQuery, UsageError, storage_failed, empty_filter, Result, ok, err, and_then, Calls,
  nanoseconds_per_day, clamp_limit, clamp_offset, check_filters, end_of_day, preset_days,
  resolve_key, resolve_status_class, resolve_window, resolve_filter, reported, list_page,
}

-- A limit is clamped to the page, and kept where it fits.
clamp_limit_bounds :
    (v def max : ℕ)
    → v < int_mod
    → 0 < def
    → def ≤ max
    → max < int_half
    → (0 < clamp_limit v def max)
      × (clamp_limit v def max ≤ max)
      × (0 < v → v ≤ max → clamp_limit v def max ≡ v)
unfolding clamp_limit
clamp_limit_bounds v def max h p q r = (ground arith, ground arith, λ s t. ground arith)

clamp_offset_bounds :
    (v : ℕ) → v < int_mod → (clamp_offset v < int_half) × (v < int_half → clamp_offset v ≡ v)
unfolding clamp_offset
clamp_offset_bounds v h = (ground arith, λ k. ground arith)

and_then-ok :
    {A B : Type 0} (r : Result A) (next : A → Result B) {b : B}
    → and_then r next ≡ ok b
    → (a : A) × (r ≡ ok a) × (next a ≡ ok b)
and_then-ok (ok a) next h = (a, refl, h)
and_then-ok (err e) next h = cc

result_of : {A : Type 0} → A → Result A → A
result_of d (ok a) = a
result_of d (err e) = d

pub ok_injective : {A : Type 0} {a b : A} → ok a ≡ ok b → a ≡ b
unfolding result_of
ok_injective {a} h = ap (result_of a) h

pub err_clash : {A : Type 0} (e : UsageError) (a : A) → err e ≡ ok a → ⊥
err_clash e a h = cc

some_of_ok :
    {A : Type 0} (o : Option A) {a : A}
    → (elim o [ none ↦ err storage_failed | some b ↦ ok b ]) ≡ ok a
    → o ≡ some a
some_of_ok none h = cc
some_of_ok (some b) h = ap some (ok_injective h)

-- A filter with a key and a value.
abbrev pub IsFilled : MetadataFilter → Type 0
IsFilled f = (is_empty f.key ≡ false) × (is_empty f.value ≡ false)

check_filters-ok :
    (fs gs : List MetadataFilter) → check_filters fs ≡ ok gs → (fs ≡ gs) × All IsFilled fs
unfolding check_filters
check_filters-ok [] gs h = (ok_injective h, tt)
check_filters-ok (f ∷ fs) gs h = elim (Bool-cases (is_empty f.key || is_empty f.value)) [
  | inl e ↦ absurd (err_clash empty_filter gs (rw e at h))
  | inr e ↦
      let (hs, inner, last) = and_then-ok (check_filters fs) (λ fs. ok (f ∷ fs)) (rw e at h) in
      let (same, filled) = check_filters-ok fs hs inner in
      (ap (λ l. f ∷ l) same ∙ ok_injective last, ((ground arith, ground arith), filled))
]

error_of : {A : Type 0} → Result A → UsageError
error_of (ok a) = storage_failed
error_of (err e) = e

pub err_injective : {A : Type 0} {d e : UsageError} → ◌≡◌ {A = Result A} (err d) (err e) → d ≡ e
unfolding error_of
err_injective h = ap error_of h

module _ (calls : Calls) where
  -- What is known of the filter that a query resolves to.
  pub record IsResolved (q : UsageQuery) (f : UsageFilter) : Type 0 where
    pub few : length f.metadata_filters ≤ 2
    pub kept : q.metadata_filters ≡ f.metadata_filters
    pub filled : All IsFilled f.metadata_filters
    pub status_class :
        (f.status_class ≡ []) ⊎ ((f.status_class ≡ lit "error") ⊎ (f.status_class ≡ lit "success"))
    pub key : resolve_key calls q.api_key_id ≡ ok (f.api_key_id)
    pub window : resolve_window calls q ≡ ok (f.start, f.end)

  resolve_status_class-ok :
      (c d : Str)
      → resolve_status_class calls c ≡ ok d
      → (d ≡ []) ⊎ ((d ≡ lit "error") ⊎ (d ≡ lit "success"))
  unfolding resolve_status_class
  resolve_status_class-ok [] d h = inl (sym (ok_injective h))
  resolve_status_class-ok (x ∷ c) d h = elim (Bool-cases ((x ∷ c) == lit "error")) [
    | inl e ↦ inr (inl (sym (ok_injective (rw e at h)) ∙ (eq_iff (x ∷ c) (lit "error")).0 e))
    | inr e ↦ elim (Bool-cases ((x ∷ c) == lit "success")) [
      | inl k ↦
          inr (inr (sym (ok_injective (rw (e, k) at h)) ∙ (eq_iff (x ∷ c) (lit "success")).0 k))
      | inr k ↦ absurd (err_clash _ d (rw (e, k) at h))
    ]
  ]

  -- A query that is accepted has at most two metadata filters, each with a key and a value, and all of
  -- them are kept; its status class is empty or one of the two; and its key and its window are those
  -- that the query resolves to.
  resolve_filter-IsResolved :
      (q : UsageQuery) (f : UsageFilter) → resolve_filter calls q ≡ ok f → IsResolved q f
  unfolding resolve_filter
  resolve_filter-IsResolved q f h = elim (Bool-cases (ltb 2 (length q.metadata_filters))) [
    | inl e ↦ absurd (err_clash _ f (rw e at h))
    | inr e ↦
        let (key, k, h1) = and_then-ok (resolve_key calls q.api_key_id) _ (rw e at h) in
        let (class, c, h2) = and_then-ok (resolve_status_class calls q.status_class) _ h1 in
        let (filters, g, h3) = and_then-ok (check_filters q.metadata_filters) _ h2 in
        let (window, w, h4) = and_then-ok (resolve_window calls q) _ h3 in
        let same = ok_injective h4 in
        let (kept, filled) = check_filters-ok q.metadata_filters filters g in
        subst (IsResolved q) same (record {
          few = ground (arith, ap length kept);
          kept = kept;
          filled = subst (All IsFilled) kept filled;
          status_class = resolve_status_class-ok q.status_class class c;
          key = k;
          window = w;
        })
  ]

  preset_days_le : (p : Str) → preset_days calls p ≤ 90
  unfolding preset_days
  preset_days_le p = ground arith

  -- Without a start, the window of an accepted query is that of its preset: it ends at the next midnight,
  -- and begins 7, 30 or 90 days before that.
  resolve_filter-preset :
      (q : UsageQuery) (f : UsageFilter)
      → resolve_filter calls q ≡ ok f
      → is_empty q.start ≡ true
      → 90 * nanoseconds_per_day ≤ calls.now
      → (calls.now < f.end)
        × (f.end ≤ calls.now + nanoseconds_per_day)
        × (f.start
              + preset_days calls (if is_empty q.preset then lit "30d" else q.preset)
                * nanoseconds_per_day
            ≡ f.end)
  unfolding resolve_window end_of_day
  resolve_filter-preset q f h e late =
      let w = (resolve_filter-IsResolved q f h).window in
      let window = ok_injective (rw (resolve_window, e) at w) in
      let days = preset_days calls (if is_empty q.preset then lit "30d" else q.preset) in
      let few = preset_days_le (if is_empty q.preset then lit "30d" else q.preset) in
      let start : (calls.now / nanoseconds_per_day) * nanoseconds_per_day
            + nanoseconds_per_day
            - days * nanoseconds_per_day
          ≡ f.start =
        ap (λ x. x.0) window in
      let end : (calls.now / nanoseconds_per_day) * nanoseconds_per_day + nanoseconds_per_day
          ≡ f.end =
        ap (λ x. x.1) window in
      (omega (arith, end), omega (arith, end), omega (arith, start, end, few))

  -- A list is asked for with a limit from 1 to 200, the client's where it is in this range, and with an
  -- offset that is not negative.
  pub list_page_bounds :
      {A : Type 0} (list : UsageFilter → ℕ → ℕ → Option A) (q : UsageQuery) (a : A)
      → q.limit < int_mod
      → q.offset < int_mod
      → list_page calls list q ≡ ok a
      → (f : UsageFilter) × (limit : ℕ) × (offset : ℕ) × (resolve_filter calls q ≡ ok f)
        × (list f limit offset ≡ some a)
        × (0 < limit)
        × (limit ≤ 200)
        × (offset < int_half)
        × (0 < q.limit → q.limit ≤ 200 → limit ≡ q.limit)
        × (q.offset < int_half → offset ≡ q.offset)
  unfolding list_page reported
  list_page_bounds list q a hl ho h =
      let (f, resolved, listed) = and_then-ok (resolve_filter calls q) _ h in
      let (low, high, same) =
        clamp_limit_bounds q.limit 50 200 hl (omega arith) (omega arith) (omega arith) in
      let (small, kept) = clamp_offset_bounds q.offset ho in
      (
        f,
        clamp_limit q.limit 50 200,
        clamp_offset q.offset,
        resolved,
        some_of_ok (list f (clamp_limit q.limit 50 200) (clamp_offset q.offset)) listed,
        low,
        high,
        small,
        same,
        kept,
      )
