-- ===== src/Tests/Candidates.antt =====
-- A concrete run of the theorem on requests of devices that are not enrolled (src/api/sync.rs).
use palla_sync.Routing.Answer.{Response}
use palla_sync.Prelude.{refl, length, ◌+◌, ◌≡◌, ◌-◌, ◌∷◌, [], ◌*◌, if◌then◌else◌, leb, ltb}
use palla_sync.Routing.Admission.Rated.{of_source, of_offer, IsRated, answer_candidate-IsRated}
use palla_sync.Auth.Rate.{Floats}
use palla_sync.Error.{Result, err, failed, offer_not_found}
use palla_sync.Routing.Admission.{answer_candidate}
use palla_sync.Json.{Value, object, num, str}
use palla_sync.Config.{RelayConfig}
use palla_sync.Tests.{relay, world, sample, World}
use palla_sync.Db.{World}

-- Numbers for doubles.
abbrev numbers : Floats
numbers = record {
  of_u64 = λ k. k;
  add = λ j k. j + k;
  sub = λ j k. j - k;
  mul = λ j k. j * k;
  div = λ j k. j;
  min = λ j k. if leb j k then j else k;
  less = λ j k. ltb j k;
  ceil_u64 = λ k. k;
}

abbrev bucket : Value
bucket = object (("burst", num 5) ∷ ("requests_per_minute", num 60000) ∷ [])

abbrev limited : RelayConfig
limited = record relay {
  privacy = object (
      ("rate_limits", object (("enrollment_source_ip", bucket) ∷ ("enrollment_offer", bucket) ∷ []))
      ∷ []);
}

abbrev wish : Value
wish = object (("request_id", str "q1") ∷ [])

abbrev asked : Result Response × World
asked = answer_candidate ⦃x = sample⦄ ⦃f = numbers⦄ limited (127 ∷ []) "key" [] wish world

-- There is no such chain; both rates are taken.
unknown : asked ≡ (err (failed offer_not_found), asked.1)
unfolding answer_candidate palla_sync.Prelude.find_row palla_sync.Json.n object
    palla_sync.Prelude.upsert
unknown = refl

answer_candidate-IsRated_example :
    IsRated (of_source ⦃x = sample⦄ (127 ∷ [])) (of_offer "key" wish) world.db asked.1.db
answer_candidate-IsRated_example =
    answer_candidate-IsRated ⦃x = sample⦄ ⦃f = numbers⦄ limited (127 ∷ []) "key" [] wish world
      asked.1 (failed offer_not_found) unknown
