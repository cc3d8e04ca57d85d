-- ===== src/Tests/Routes.antt =====
-- Concrete runs of the theorem on endpoints (src/api/sync.rs).
use palla_sync.Decimal.{to_string}
use palla_sync.Routing.Endpoint.{envelopes_post, recovery, endpoint}
use palla_sync.Prelude.{refl, ◌∷◌, ◌≡◌, []}
use palla_sync.Routing.Endpoint.Served.{IsServed, endpoint-IsServed}
use palla_sync.Tests.{sample}
use palla_sync.Error.{ok, err, failed, method_not_allowed}

-- A number with a leading zero is written anew.
seventh :
    endpoint ⦃x = sample⦄ "/pallasync/v3/chains/key/epochs/07/envelopes" "POST"
    ≡ ok (record { route = envelopes_post; chain = "key"; param = "7"; allow = "POST" ∷ [] })
unfolding endpoint to_string
seventh = refl

not_allowed :
    endpoint ⦃x = sample⦄ "/pallasync/v3/chains/key/records" "PUT" ≡ err (failed method_not_allowed)
unfolding endpoint
not_allowed = refl

-- An empty parameter is let through.
empty_parameter :
    endpoint ⦃x = sample⦄ "/pallasync/v3/chains/key/epochs//recovery-envelope" "GET"
    ≡ ok (record { route = recovery; chain = "key"; param = ""; allow = "GET" ∷ [] })
unfolding endpoint
empty_parameter = refl

endpoint-IsServed_example :
    IsServed ⦃x = sample⦄ "POST"
      (record { route = envelopes_post; chain = "key"; param = "7"; allow = "POST" ∷ [] })
endpoint-IsServed_example =
    endpoint-IsServed ⦃x = sample⦄ "/pallasync/v3/chains/key/epochs/07/envelopes" "POST"
      (record { route = envelopes_post; chain = "key"; param = "7"; allow = "POST" ∷ [] }) seventh
