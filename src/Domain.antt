-- ===== src/Domain.antt =====
-- The rules of the protocol's objects against the state of a chain (src/api/domain.rs).
pub mod Devices
pub mod Envelopes
pub mod Bundles
pub mod Commit
pub mod Records
pub mod Compactions
use palla_sync.Prelude.{
  ℕ, Bool, true, false, not, ◌||◌, Option, none, some, List, [], ◌∷◌, ◌++◌, String, ◌==◌, ◌/=◌,
  nat_eq, text_eq, find, if◌then◌else◌,
}
use palla_sync.Json.{
  Value, Members, null, num, str, bool, end, obj, ◌!◌, lookup, insert, object, as_str, s, n,
  value_beq,
}
use palla_sync.Error.{
  Result, ok, ApiError, throw, reject_if, invalid_field, generation_mismatch, cas_mismatch,
  operation_id_conflict, code_name, status, retryable,
}
use palla_sync.Crypto.Primitives.{External}
use palla_sync.Crypto.{codes, object_hash}
use palla_sync.Db.{Chain, Kind, admin}
use palla_sync.Db.Action.{Action, ◌>>=◌, ◌>>◌, pure, lift, fail_if}
use palla_sync.Wire.Signed.{verify}
use palla_sync.Wire.Validate.{ObjectKind, validate}
use palla_sync.Store.Hashes.{generation, parameters_hash, epoch_hash}
use palla_sync.Store.Objects.{object_digest}
use palla_sync.Auth.{active_device}

-- The contexts of signatures (`CTX_…` of src/crypto/verify.rs).
abbrev pub signing_context : String → List ℕ
signing_context t = codes t ++ 0 ∷ []

abbrev pub is_text : Value → String → Bool
is_text v t = value_beq v (str t)

-- A policy of the chain that is switched on.
abbrev pub policy : Chain → String → Value
policy c key = c.parameters ! "policy" ! key

abbrev pub allows : Chain → String → Bool
allows c key = value_beq (policy c key) (bool true)

-- Whether an identifier's digest is another object's.
abbrev pub is_other : Option String → String → Bool
is_other none hash = false
is_other (some old) hash = old /= hash

module _ ⦃x : External⦄ where
  unfoldable pub bound : Value → Chain → Result (Unit {0})
  bound v c =
      if s v "chain_id" /= c.chain_id
      then throw invalid_field
      else reject_if (n v "generation" /= generation c) generation_mismatch

  unfoldable pub cas : Chain → Value → Value → Result (Unit {0})
  cas c parameters epoch =
      reject_if (not (is_text parameters (parameters_hash c)) || not (is_text epoch (epoch_hash c)))
        cas_mismatch

  unfoldable pub admin_operation : Chain → Value → String → Value → Action (Unit {0})
  admin_operation c op action target = do
    lift (validate op ObjectKind.admin)
    lift (bound op c)
    lift (verify op (s c.parameters "admin_public_key") (signing_context "PALLASYNC-ADMIN-OP-v3"))
    fail_if (s op "action" /= action || s op "target_hash" /= object_hash target) invalid_field
    old ← object_digest c.chain_id Kind.admin (s op "operation_id")
    fail_if (is_other old (object_hash op)) operation_id_conflict
    lift (cas c (op ! "expected_parameters_hash") (op ! "expected_epoch_hash"))

-- The members of an object that are named.
abbrev target_members : Value → List String → Members → Members
target_members v [] ms = ms
target_members v (k ∷ ks) ms =
    target_members v ks (elim (lookup v k) [ none ↦ ms | some w ↦ insert k w ms ])

unfoldable pub target : Value → List String → Value
target v ks = obj (target_members v ks end)

unfoldable pub rejection : Value → String → ApiError → Value
rejection v id e = object (
    (id, v ! id)
    ∷ ("status", num (status e))
    ∷ ("code", str (code_name e.code))
    ∷ ("retryable", bool (retryable e))
    ∷ [])

-- A device that is staged beside the object, by its identifier.
abbrev pub find_staged : List Value → String → Option Value
find_staged staged id = find (λ d. s d "device_id" == id) staged

module _ ⦃x : External⦄ where
  -- The key of a staged device, or of an active one.
  unfoldable pub staged_or_active : Chain → List Value → String → Action String
  staged_or_active c staged id = elim (find_staged staged id) [
    | some d ↦ pure (s d "device_public_key")
    | none ↦ active_device c id
  ]
