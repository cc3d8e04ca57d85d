-- ===== src/Routing/Audit.antt =====
-- What of a refused request enters the transparency log (`audit_reject` of src/api/sync.rs).
use palla_sync.Store.Transparency.{transparency}
use palla_sync.Db.Action.{◌>>=◌, transaction, Action, pure}
use palla_sync.Prelude.{
  List, Bool, String, select, true, Option, ◌++◌, false, ◌∷◌, [], if◌then◌else◌, some, ◌||◌,
  is_empty, none,
}
use palla_sync.Error.{
  Code, Result, ok, err, rate_limited, quota_exceeded, storage_unavailable, invalid_json, code_name,
}
use palla_sync.Crypto.Primitives.{External}
use palla_sync.Json.{Value, lookup, a}
use palla_sync.Config.{RelayConfig}
use palla_sync.Wire.Validate.{ObjectKind, validate}
use palla_sync.Store.Objects.{load}
use palla_sync.Db.{Chain}
use palla_sync.Store.Quota.{save}
use palla_sync.Crypto.{object_hash}

-- Codes whose requests are not audited.
abbrev pub is_silent : Code → Bool
is_silent rate_limited = true
is_silent quota_exceeded = true
is_silent storage_unavailable = true
is_silent invalid_json = true
is_silent code = false

abbrev object_keys : List (String × ObjectKind)
object_keys =
    ("parameters", ObjectKind.parameters)
    ∷ ("device_record", ObjectKind.device)
    ∷ ("epoch", ObjectKind.epoch)
    ∷ ("compaction", ObjectKind.compaction)
    ∷ ("admin_operation", ObjectKind.admin)
    ∷ []

abbrev list_keys : List (String × ObjectKind)
list_keys = ("envelopes", ObjectKind.envelope) ∷ ("device_records", ObjectKind.device) ∷ []

abbrev is_valid : Result (Unit {0}) → Bool
is_valid (ok u) = true
is_valid (err e) = false

module _ ⦃x : External⦄ where
  -- The valid objects among the members of a request.
  unfoldable pub members_of : Value → List (String × ObjectKind) → List Value
  unfolding lookup validate
  members_of v [] = []
  members_of v ((k, kind) ∷ keys) =
      let rest = members_of v keys in
      elim (lookup v k) [
        | none ↦ rest
        | some o ↦ if is_valid (validate o kind) then o ∷ rest else rest
      ]

  -- The valid objects among the elements of its lists.
  unfoldable pub elements_of : Value → List (String × ObjectKind) → List Value
  unfolding select validate
  elements_of v [] = []
  elements_of v ((k, kind) ∷ keys) =
      select (λ o. is_valid (validate o kind)) (a v k) ++ elements_of v keys

  unfoldable pub candidates : Value → List Value
  unfolding members_of elements_of
  candidates v = members_of v object_keys ++ elements_of v list_keys

  unfoldable pub record_all : RelayConfig → Code → List Value → Chain → Action Chain
  record_all cfg code [] c = pure c
  record_all cfg code (o ∷ os) c =
      transparency c cfg "reject" (object_hash o) none (some (code_name code)) >>= λ t.
      record_all cfg code os t.chain

  abbrev pub record_loaded : RelayConfig → Code → List Value → Option Chain → Action (Unit {0})
  record_loaded cfg code os none = pure tt
  record_loaded cfg code os (some c) = record_all cfg code os c >>= λ c₁. save c₁ cfg

  -- `audit_reject`
  unfoldable pub audit_request : RelayConfig → String → Value → Code → Action (Unit {0})
  unfolding candidates record_all transaction load
  audit_request cfg chain v code =
      if is_silent code || is_empty (candidates v)
      then pure tt
      else transaction (load chain >>= λ c. record_loaded cfg code (candidates v) c)
