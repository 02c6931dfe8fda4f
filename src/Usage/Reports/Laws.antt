-- ===== src/Usage/Reports/Laws.antt =====
-- The reports agree: with the rows, with the summary and with one another.
use mathlib.Core.Path.{subst}
use majordomo_gateway.Base.{
  ℕ, ◌≡◌, refl, sym, ap, ◌∙◌, true, List, arith, Memᴰ, Str, ◌==◌, eq_iff, filter, Float, str_lt,
  ◌↔◌,
}
use majordomo_gateway.Logs.Types.{RequestLog}
use majordomo_gateway.Usage.Aggregate.{sum_int, sum_int-report}
use majordomo_gateway.Usage.Groups.{report-line}
use majordomo_gateway.Usage.Filter.{UsageFilter, selected}
use majordomo_gateway.Usage.Reports.{
  Totals, DailyUsage, ModelUsage, ProviderUsage, Functions, same_pair, dearer, totals_of,
  get_usage_summary, get_daily_usage, get_model_breakdown, get_provider_breakdown,
}

pub same_pair_iff : (a b : Str × Str) → (same_pair a b ≡ true) ↔ (a ≡ b)
unfolding same_pair
same_pair_iff (a, b) (c, d) = (
  λ h. ground (arith, eq_iff a c, eq_iff b d),
  λ h. ground (arith, eq_iff a c, eq_iff b d, ap (λ p. p.0) h, ap (λ p. p.1) h),
)

-- The columns of a report that are integers.
pub data Column : Type 0 where
  requests input output cached cache_creation : Column

module _ (F : Float) (db : Functions F.R) where
  open F use {R}

  abbrev pub measure : Column → Totals R → ℕ
  measure requests t = t.request_count
  measure input t = t.input_tokens
  measure output t = t.output_tokens
  measure cached t = t.cached_tokens
  measure cache_creation t = t.cache_creation_tokens

  unfoldable pub of_row : Column → RequestLog R → ℕ
  of_row requests row = 1
  of_row input row = row.input_tokens
  of_row output row = row.output_tokens
  of_row cached row = row.cached_tokens
  of_row cache_creation row = row.cache_creation_tokens

  pub measure-totals_of :
      (c : Column) (rows : List (RequestLog R))
      → measure c (totals_of F db rows) ≡ sum_int (of_row c) rows
  unfolding totals_of of_row
  measure-totals_of requests rows = refl
  measure-totals_of input rows = refl
  measure-totals_of output rows = refl
  measure-totals_of cached rows = refl
  measure-totals_of cache_creation rows = refl

  -- Each line of a breakdown has the totals of the selected rows that it is about, and of no other.
  pub breakdown_lines :
      (f : UsageFilter) (rows : List (RequestLog R)) (d : DailyUsage R) (m : ModelUsage R)
      (p : ProviderUsage R)
      → Memᴰ d (get_daily_usage F db f rows)
      → Memᴰ m (get_model_breakdown F db f rows)
      → Memᴰ p (get_provider_breakdown F db f rows)
      → (d.totals
          ≡ totals_of F db (filter (λ row. db.day_of row.requested_at == d.date) (selected f rows)))
        × (m.totals
            ≡ totals_of F db (
                filter
                  (λ row. same_pair (row.provider, row.model) (m.provider, m.model))
                  (selected f rows)))
        × (p.totals ≡ totals_of F db (filter (λ row. row.provider == p.provider) (selected f rows)))
  unfolding get_daily_usage get_model_breakdown get_provider_breakdown
  breakdown_lines f rows d m p hd hm hp =
      let (k, e, _) =
        report-line ◌==◌ (λ row. db.day_of row.requested_at) (totals_of F db)
          (λ k t. record { date = k; totals = t }) (λ a b. str_lt a.date b.date) (selected f rows) d
          eq_iff hd in
      let (k', e', _) =
        report-line same_pair (λ row. (row.provider, row.model)) (totals_of F db)
          (λ k t. record { provider = k.0; model = k.1; totals = t })
          (λ a b. dearer F db a.totals b.totals) (selected f rows) m same_pair_iff hm in
      let (k3, e3, _) =
        report-line ◌==◌ (λ row. row.provider) (totals_of F db)
          (λ k t. record { provider = k; totals = t }) (λ a b. dearer F db a.totals b.totals)
          (selected f rows) p eq_iff hp in
      (
        subst
            (λ x.
              x.totals
              ≡ totals_of F db
                  (filter (λ row. db.day_of row.requested_at == x.date) (selected f rows)))
            e refl,
        subst
            (λ x.
              x.totals
              ≡ totals_of F db (
                  filter (λ row. same_pair (row.provider, row.model) (x.provider, x.model))
                    (selected f rows)))
            e' refl,
        subst
            (λ x.
              x.totals
              ≡ totals_of F db (filter (λ row. row.provider == x.provider) (selected f rows)))
            e3 refl,
      )

  -- What the lines of a breakdown add up to.
  pub breakdowns_add_up :
      (f : UsageFilter) (rows : List (RequestLog R)) (c : Column)
      → (sum_int (λ d. measure c d.totals) (get_daily_usage F db f rows)
          ≡ measure c (get_usage_summary F db f rows))
        × (sum_int (λ m. measure c m.totals) (get_model_breakdown F db f rows)
            ≡ measure c (get_usage_summary F db f rows))
        × (sum_int (λ p. measure c p.totals) (get_provider_breakdown F db f rows)
            ≡ measure c (get_usage_summary F db f rows))
  unfolding get_daily_usage get_model_breakdown get_provider_breakdown get_usage_summary
  breakdowns_add_up f rows c =
      let whole = sym (measure-totals_of c (selected f rows)) in
      (
        sum_int-report ◌==◌ (λ row. db.day_of row.requested_at) (totals_of F db)
              (λ k t. record { date = k; totals = t }) (λ a b. str_lt a.date b.date)
              (λ d. measure c d.totals) (of_row c) (selected f rows)
              (λ k group. measure-totals_of c group)
            ∙ whole,
        sum_int-report same_pair (λ row. (row.provider, row.model)) (totals_of F db)
              (λ k t. record { provider = k.0; model = k.1; totals = t })
              (λ a b. dearer F db a.totals b.totals) (λ m. measure c m.totals) (of_row c)
              (selected f rows) (λ k group. measure-totals_of c group)
            ∙ whole,
        sum_int-report ◌==◌ (λ row. row.provider) (totals_of F db)
              (λ k t. record { provider = k; totals = t }) (λ a b. dearer F db a.totals b.totals)
              (λ p. measure c p.totals) (of_row c) (selected f rows)
              (λ k group. measure-totals_of c group)
            ∙ whole,
      )
