-- ===== src/Pricing/Resolve.antt =====
-- resolve, Price and Candidates of internal/pricing/service.go. `none` stands for the zero
-- price with ok = false.
use majordomo_gateway.Base.{
  ◌≡◌, ◌≢◌, true, false, Option, none, some, List, ◌++◌, arith, if◌then◌else◌, Str, lit, ◌==◌,
  eq_iff, Dict, lookup, lookup_in, or_else,
}
use majordomo_gateway.Pricing.Suffix.{is_date, strip_date_suffix, strip_date_suffix-append}
use majordomo_gateway.Pricing.Types.{ModelPricing, Endpoint, Service}

module _ {R : Type 0} where
  -- an exact entry, or the entry of the alias
  by_name : Service R → Str → Option (ModelPricing R)
  by_name s name =
      or_else (lookup name s.pricing)
        (elim (lookup name s.aliases) [ none ↦ none | some aliased ↦ lookup aliased s.pricing ])

  -- the part of `resolve` that knows no provider
  resolve_default : Service R → Str → Option (ModelPricing R)
  unfolding by_name
  resolve_default s model =
      or_else (by_name s model) (
        let (base, stripped) = strip_date_suffix model in if stripped then by_name s base else none)

  -- the per-provider map: the exact id, then the id without its date
  resolve_in : Dict (ModelPricing R) → Str → Option (ModelPricing R)
  resolve_in pm model =
      or_else (lookup model pm) (
        let (base, stripped) = strip_date_suffix model in if stripped then lookup base pm else none)

  unfoldable pub resolve : Service R → Str → Str → Option (ModelPricing R)
  unfolding resolve_in resolve_default
  resolve s provider model =
      let fallback = resolve_default s model in
      if provider == lit "" then fallback else elim (lookup provider s.by_provider) [
        | none ↦ fallback
        | some pm ↦ or_else (resolve_in pm model) fallback
      ]

  unfoldable pub price : Service R → Str → Str → Option (ModelPricing R)
  price s provider model = resolve s provider model

  unfoldable pub candidates : Service R → Str → Option (List Endpoint)
  candidates s model = lookup model s.catalog

  -- A price listed for the provider and the exact model id wins over every default, alias and
  -- dated entry.
  pub resolve_of_provider :
      (s : Service R) (provider model : Str) {p : ModelPricing R}
      → provider ≢ lit ""
      → lookup_in provider model s.by_provider ≡ some p
      → resolve s provider model ≡ some p
  unfolding resolve lookup_in
  resolve_of_provider s provider model h e = ground (arith, eq_iff provider (lit ""))

  by_name-none :
      (s : Service R) (name : Str)
      → lookup name s.pricing ≡ none
      → lookup name s.aliases ≡ none
      → by_name s name ≡ none
  unfolding by_name
  by_name-none s name h k = rw (h, k)

  -- A dated release without entries of its own is priced as the undated model: per provider, by
  -- default and through an alias alike. The undated name itself must carry no date.
  resolve_dated :
      (s : Service R) (provider base date : Str)
      → is_date date ≡ true
      → (strip_date_suffix base).1 ≡ false
      → lookup_in provider (base ++ date) s.by_provider ≡ none
      → lookup (base ++ date) s.pricing ≡ none
      → lookup (base ++ date) s.aliases ≡ none
      → resolve s provider (base ++ date) ≡ resolve s provider base
  unfolding resolve lookup_in
  resolve_dated s provider base date d undated none_in no_price no_alias =
      ground (
        arith,
        strip_date_suffix-append base date d,
        by_name-none s (base ++ date) no_price no_alias,
      )
