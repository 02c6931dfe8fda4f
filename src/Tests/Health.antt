-- ===== src/Tests/Health.antt =====
-- The health of an endpoint at twenty failed requests.
use majordomo_gateway.Base.{
  ℕ, zero, suc, ◌≡◌, refl, lt_int, true, false, none, List, [], ◌∷◌, lit, All, arith, lookup,
  filter, ◌==◌, insert,
}
use majordomo_gateway.Logs.Types.{RequestLog}
use majordomo_gateway.Tests.Fixtures.{millionths, endpoint}
use majordomo_gateway.Tests.Usage.{log, functions}
use majordomo_gateway.Proxy.Health.{
  NoNul, is_healthy, snapshot_of, health_min_samples, refresh, index_rows, health_key,
}
use majordomo_gateway.Usage.Aggregate.{sum_int}
use majordomo_gateway.Usage.Health.{
  get_endpoint_health, recent, rows_of, server_error_rate, is_healthy-get_endpoint_health,
}

abbrev repeat : ℕ → List (RequestLog ℕ)
repeat zero = []
repeat (suc n) = log (lit "1") none [] 10 503 ∷ repeat n

named : (n : ℕ) → All (λ row. NoNul row.provider) (repeat n)
unfolding lit
named zero = tt
named (suc n) = ((omega arith, tt), named n)

named_endpoint : NoNul (lit "p")
unfolding lit
named_endpoint = (omega arith, tt)

gated :
    is_healthy millionths
      (snapshot_of millionths (get_endpoint_health millionths functions 0 (repeat 20)) 12)
      (endpoint (lit "p") true (lit "deny"))
    ≡ false
unfolding is_healthy get_endpoint_health lookup refresh index_rows filter ◌==◌ lit insert health_key
gated = refl

is_healthy-get_endpoint_health_example :
    (lt_int
        (sum_int
          (λ r. 1)
          (rows_of millionths functions
            (endpoint (lit "p") true (lit "deny"))
            (recent millionths functions 0 (repeat 20))))
        health_min_samples
      ≡ false)
    × (millionths.le
          (server_error_rate millionths functions (
            rows_of millionths functions
              (endpoint (lit "p") true (lit "deny"))
              (recent millionths functions 0 (repeat 20))))
          (millionths.ratio 20 100)
        ≡ false)
is_healthy-get_endpoint_health_example =
    is_healthy-get_endpoint_health millionths functions 0 12 (endpoint (lit "p") true (lit "deny"))
      (repeat 20) named_endpoint (named 20) gated
