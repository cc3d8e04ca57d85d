-- ===== src/Store/Outcomes.antt =====
-- The outcomes of operations in src/api/store.rs: a repeated operation gets its first response.
use palla_sync.Prelude.{
  false, Option, none, some, String, ◌≡◌, ◌==◌, ◌/=◌, text_eq, pair_eq, is_some, find_row, add_row,
  arith, if◌then◌else◌, beq_self, ==_iff,
}
use palla_sync.Json.{Value}
use palla_sync.Error.{
  Code, chain_exists, operation_id_conflict, storage_unavailable, ok, err, failed,
}
use palla_sync.Crypto.Primitives.{External}
use palla_sync.Crypto.{object_hash}
use palla_sync.Db.{OutcomeRow, World}
use palla_sync.Db.Action.{Action, ◌>>=◌, pure, fail, gets, insert_unless}

abbrev pub OutcomeKey : Type 0
OutcomeKey = String × (String × String)

abbrev pub outcome_conflict : String → Code
outcome_conflict scope = if scope == "genesis" then chain_exists else operation_id_conflict

module _ ⦃x : External⦄ where
  unfoldable pub known_outcome : Option OutcomeRow → String → Value → Action (Option Value)
  known_outcome none scope payload = pure none
  known_outcome (some r) scope payload =
      if r.digest /= object_hash payload
      then fail (outcome_conflict scope)
      else pure (some r.response)

  -- The response of an operation that was done before, if its payload is the same.
  unfoldable pub outcomes : String → String → String → Value → Action (Option Value)
  outcomes c scope id payload = do
    row ← gets (λ db. find_row (c, (scope, id)) db.outcomes)
    known_outcome row scope payload

  -- INSERT INTO v3_outcomes
  unfoldable pub outcome : String → String → String → Value → Value → Action (Unit {0})
  outcome c scope id payload response w =
      let key : OutcomeKey = (c, (scope, id)) in
      insert_unless (is_some (find_row key w.outcomes))
        (λ db. record db {
          outcomes =
              add_row key (record { digest = object_hash payload; response = response })
                db.outcomes;
        })
        w

-- A recorded operation is found with its response; with another payload it is a conflict, and so is
-- recording it again. Another operation is found as it was before.
pub outcome-outcomes :
    ⦃x : External⦄ (c scope id : String) (payload response : Value) (w w' : World)
    → outcome c scope id payload response w ≡ (ok tt, w')
    → (outcomes c scope id payload w' ≡ (ok (some response), w'))
      × (((other : Value)
            → (object_hash payload == object_hash other) ≡ false
            → outcomes c scope id other w' ≡ (err (failed (outcome_conflict scope)), w'))
          × (((other again : Value)
                → outcome c scope id other again w' ≡ (err (failed storage_unavailable), w'))
              × ((k : OutcomeKey) (other : Value)
                  → ¬ (k ≡ (c, (scope, id)))
                  → (outcomes k.0 k.1.0 k.1.1 other w').0 ≡ (outcomes k.0 k.1.0 k.1.1 other w).0)))
unfolding outcome outcomes known_outcome find_row
outcome-outcomes c scope id payload response w w' h =
    let key : OutcomeKey = (c, (scope, id)) in
    (
      ground (arith, beq_self key, beq_self (object_hash payload)),
      (
        (λ other e. ground (arith, beq_self key, e)),
        (
          (λ other again. ground (arith, beq_self key)),
          (λ k other e. ground (arith, e, ==_iff key k)),
        ),
      ),
    )
