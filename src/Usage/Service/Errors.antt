-- ===== src/Usage/Service/Errors.antt =====
-- The errors that a client of the usage endpoints sees.
use majordomo_gateway.Base.{
  ◌≡◌, ◌↔◌, refl, sym, ap, ◌∙◌, true, Bool-cases, Option-cases, ◌||◌, inl, inr, Option, none, some,
  List, [], ◌∷◌, arith, Str, is_empty, length, ltb, option_clash,
}
use majordomo_gateway.Usage.Filter.{MetadataFilter, UsageFilter}
use majordomo_gateway.Usage.Service.{
  UsageQuery, UsageError, storage_failed, Result, ok, err, and_then, Calls, check_filters,
  resolve_key, resolve_status_class, resolve_window, resolve_filter, reported, is_validation,
  report_status,
}
use majordomo_gateway.Usage.Service.Laws.{err_injective, err_clash, ok_injective}

validation_and_then :
    {A B : Type 0} (r : Result A) (next : A → Result B) (e : UsageError)
    → ((e : UsageError) → r ≡ err e → is_validation e ≡ true)
    → ((a : A) (e : UsageError) → next a ≡ err e → is_validation e ≡ true)
    → and_then r next ≡ err e
    → is_validation e ≡ true
validation_and_then (ok a) next e v w h = w a e h
validation_and_then (err d) next e v w h = v e (ap err (err_injective h))

resolve_status_class-err :
    (calls : Calls) (c : Str) (e : UsageError)
    → resolve_status_class calls c ≡ err e
    → is_validation e ≡ true
unfolding resolve_status_class is_validation
resolve_status_class-err calls c e h = ground arith

resolve_key-err :
    (calls : Calls) (c : Str) (e : UsageError)
    → resolve_key calls c ≡ err e
    → is_validation e ≡ true
unfolding resolve_key is_validation
resolve_key-err calls c e h = ground arith

check_filters-err :
    (fs : List MetadataFilter) (e : UsageError) → check_filters fs ≡ err e → is_validation e ≡ true
unfolding check_filters is_validation
check_filters-err [] e h = cc
check_filters-err (f ∷ fs) e h = elim (Bool-cases (is_empty f.key || is_empty f.value)) [
  | inl b ↦ ap is_validation (sym (err_injective (rw b at h)))
  | inr b ↦
      validation_and_then (check_filters fs) (λ gs. ok (f ∷ gs)) e (check_filters-err fs)
        (λ gs e k. absurd (err_clash e (f ∷ gs) (sym k))) (rw b at h)
]

module _ (calls : Calls) where
  resolve_window-err :
      (q : UsageQuery) (e : UsageError) → resolve_window calls q ≡ err e → is_validation e ≡ true
  unfolding resolve_window is_validation
  resolve_window-err q e h = ground arith

  resolve_filter-err :
      (q : UsageQuery) (e : UsageError) → resolve_filter calls q ≡ err e → is_validation e ≡ true
  unfolding resolve_filter is_validation
  resolve_filter-err q e h = elim (Bool-cases (ltb 2 (length q.metadata_filters))) [
    | inl b ↦ ap is_validation (sym (err_injective (rw b at h)))
    | inr b ↦
        validation_and_then (resolve_key calls q.api_key_id) _ e
          (resolve_key-err calls q.api_key_id)
          (λ key e.
            validation_and_then (resolve_status_class calls q.status_class) _ e
              (resolve_status_class-err calls q.status_class)
              (λ class e.
                validation_and_then (check_filters q.metadata_filters) _ e
                  (check_filters-err q.metadata_filters)
                  (λ filters e.
                    validation_and_then (resolve_window calls q) _ e (resolve_window-err q)
                      (λ window e k. absurd (err_clash e _ (sym k))))))
          (rw b at h)
  ]

  report_status_of :
      {A : Type 0} (report : UsageFilter → Option A) (r : Result UsageFilter)
      → ((e : UsageError) → r ≡ err e → is_validation e ≡ true)
      → ((report_status (
              some
                (and_then r (λ f. elim (report f) [ none ↦ err storage_failed | some a ↦ ok a ])))
            ≡ 400)
          ↔ ((e : UsageError) × (r ≡ err e)))
        × ((report_status (
                some
                  (and_then r (λ f. elim (report f) [ none ↦ err storage_failed | some a ↦ ok a ])))
              ≡ 500)
            ↔ ((f : UsageFilter) × (r ≡ ok f) × (report f ≡ none)))
  unfolding report_status is_validation
  report_status_of report (err e) v =
      let yes400 = v e refl in
      rw yes400 (
        (λ h. (e, refl), λ h. refl),
        (λ h. absurd (omega arith), λ (f, k, _). absurd (err_clash e f k)),
      )
  report_status_of report (ok f) v = elim (Option-cases (report f)) [
    | inl n ↦ rw n (
      (λ h. absurd (omega arith), λ (e, k). absurd (err_clash e f (sym k))),
      (λ h. (f, refl, n), λ h. refl),
    )
    | inr (a, n) ↦ rw n (
      (λ h. absurd (omega arith), λ (e, k). absurd (err_clash e f (sym k))),
      (
        λ h. absurd (omega arith),
        λ (g, k, m). absurd (option_clash (sym (ap report (ok_injective k) ∙ m) ∙ n)),
      ),
    )
  ]

  -- A client is told that it made an error exactly where its query is not accepted, and that the server
  -- did exactly where a statement failed for a query that is accepted.
  pub report_status_iff :
      {A : Type 0} (report : UsageFilter → Option A) (q : UsageQuery)
      → ((report_status (some (reported calls report q)) ≡ 400)
          ↔ ((e : UsageError) × (resolve_filter calls q ≡ err e)))
        × ((report_status (some (reported calls report q)) ≡ 500)
            ↔ ((f : UsageFilter) × (resolve_filter calls q ≡ ok f) × (report f ≡ none)))
  unfolding report_status reported
  report_status_iff report q =
      report_status_of report (resolve_filter calls q) (resolve_filter-err q)
