-- ===== src/Tests/Fixtures.antt =====
-- The data of the tests: numbers, prices, a catalog of two providers, and its endpoints.
use majordomo_gateway.Base.{
  ℕ, ◌+◌, ◌*◌, ◌/◌, Bool, [], ◌∷◌, Str, lit, Float, ltb, leb, eqb, Dict, true, false,
}
use majordomo_gateway.Pricing.Types.{
  ModelPricing, Endpoint, RouteEntry, ProviderSection, CatalogFile, Service,
}

-- Numbers in millionths.
abbrev pub millionths : Float
millionths = record {
  R = ℕ;
  ratio = λ a b. (a * 1_000_000) / b;
  of_int = λ n. n * 1_000_000;
  add = λ a b. a + b;
  mul = λ a b. (a * b) / 1_000_000;
  div = λ a b. (a * 1_000_000) / b;
  lt = ltb;
  le = leb;
  eq = eqb;
}

abbrev pub cost : ℕ → ModelPricing ℕ
cost n = record {
  input_price_per_million = n;
  output_price_per_million = 2 * n;
  cached_price_per_million = n / 2;
}

abbrev pub section : Bool → Str → Dict (ModelPricing ℕ) → ProviderSection ℕ
section zdr collection models = record {
  base_url = lit "u";
  zdr = zdr;
  data_collection = collection;
  region = [];
  models = models;
}

abbrev pub entry : Str → Str → RouteEntry
entry provider model = record { provider = provider; model = model; request_defaults = [] }

-- Two providers that serve m, and a route with an entry of an unknown provider.
abbrev pub catalog_file : CatalogFile ℕ
catalog_file = record {
  providers =
      (lit "b", section true (lit "deny") ((lit "m", cost 2_000_000) ∷ []))
      ∷ (lit "a", section false (lit "allow") ((lit "m", cost 1_000_000) ∷ []))
      ∷ [];
  routes =
      (
        lit "s",
        entry (lit "x") (lit "m") ∷ entry (lit "a") (lit "m") ∷ entry (lit "b") (lit "m") ∷ [],
      )
      ∷ [];
}

abbrev pub endpoint : Str → Bool → Str → Endpoint
endpoint provider zdr collection = record {
  provider = provider;
  base_url = lit "u";
  provider_model_id = lit "m";
  region = [];
  zdr = zdr;
  data_collection = collection;
  request_defaults = [];
}

abbrev pub endpoint_a : Endpoint
endpoint_a = endpoint (lit "a") Bool.false (lit "allow")

abbrev pub endpoint_b : Endpoint
endpoint_b = endpoint (lit "b") Bool.true (lit "deny")

abbrev pub service : Service ℕ
service = record {
  pricing = (lit "m", cost 1_000_000) ∷ [];
  by_provider = (lit "b", (lit "m", cost 2_000_000) ∷ []) ∷ [];
  catalog = (lit "s", endpoint_a ∷ endpoint_b ∷ []) ∷ [];
  aliases = [];
}
