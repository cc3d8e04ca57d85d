-- ===== src/Tests/Starts.antt =====
-- A concrete run of the theorem on the start of the relay (src/api/sync.rs).
use palla_sync.Prelude.{refl, ℕ, ◌≡◌, some, ◌∷◌, []}
use palla_sync.Db.{World, OperatorRow}
use palla_sync.Routing.Start.{register_operator, operator_row}
use palla_sync.Config.{RelayConfig}
use palla_sync.Tests.{sample, world, empty_db, relay, object, num}
use palla_sync.Error.{err, ok, failed, invalid_field, ApiError}
use palla_sync.Routing.Start.Operator.{Succeeds, register_operator-cases}
use palla_sync.Json.{num, value_beq}

abbrev earlier : OperatorRow
earlier = record {
  origin = "https://relay.example";
  relay_key_id = "key";
  revision = 3;
  disclosure_hash = "key";
}

abbrev used : World
used = record world { db = record empty_db { operator = some earlier } }

-- The relay with the disclosure of a revision.
abbrev revised : ℕ → RelayConfig
revised k = record relay { privacy = object (("revision", num k) ∷ []) }

abbrev updated : World
updated = (register_operator ⦃x = sample⦄ (revised 4) used).1

accepted : register_operator ⦃x = sample⦄ (revised 4) used ≡ (ok tt, updated)
unfolding register_operator value_beq palla_sync.Json.object
accepted = refl

refused :
    register_operator ⦃x = sample⦄ (revised 2) used
    ≡ (err (failed invalid_field), (register_operator ⦃x = sample⦄ (revised 2) used).1)
unfolding register_operator value_beq palla_sync.Json.object
refused = refl

register_operator-cases_example :
    ((w' : World)
      → register_operator ⦃x = sample⦄ (revised 4) used ≡ (ok tt, w')
      → (w'.operator ≡ some (operator_row ⦃x = sample⦄ (revised 4)))
        × ((o : OperatorRow)
            → some earlier ≡ some o
            → Succeeds o (operator_row ⦃x = sample⦄ (revised 4))))
    × ((e : ApiError) (w' : World)
        → register_operator ⦃x = sample⦄ (revised 4) used ≡ (err e, w')
        → w'.db ≡ used.db)
register_operator-cases_example = register_operator-cases ⦃x = sample⦄ (revised 4) used

newer : updated.operator ≡ some (operator_row ⦃x = sample⦄ (revised 4))
newer = (register_operator-cases_example.0 updated accepted).0
