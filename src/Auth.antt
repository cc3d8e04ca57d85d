-- ===== src/Auth.antt =====
-- Who may do what (src/api/auth.rs): a request's signer, the state of its device, and the key that
-- an object must be signed with.
pub mod Rate
pub mod Token
pub mod Authenticate
pub mod Replay
use palla_sync.Prelude.{
  ℕ, Bool, true, false, ◌||◌, Option, none, some, List, [], ◌∷◌, String, ◌==◌, ◌/=◌, nat_eq,
  text_eq, pair_eq, option_eq, is_none, contains, find_row, if◌then◌else◌,
}
use palla_sync.Json.{Value, s, n}
use palla_sync.Error.{
  Result, Code, throw, ok, reject_if, ok_or, admin_required, device_unknown, device_revoked,
  device_pending_keys, generation_mismatch, storage_unavailable,
}
use palla_sync.Crypto.Primitives.{External}
use palla_sync.Db.{Kind, device, Status, active, pending_keys, revoked, RegistryRow, Chain}
use palla_sync.Db.Action.{Action, ◌>>=◌, ◌>>◌, pure, lift, gets, require, fail_if, fail}
use palla_sync.Store.Hashes.{generation}
use palla_sync.Store.Objects.{object}

pub record Auth : Type 0 where
  pub token : Value
  pub device_id : Option String

-- `Auth::admin`, `Auth::require_admin` and `Auth::owns`
abbrev pub is_admin : Auth → Bool
is_admin auth = is_none auth.device_id

abbrev pub require_admin : Auth → Result (Unit {0})
require_admin auth = if is_admin auth then ok tt else throw admin_required

abbrev pub is_device : Auth → String → Bool
is_device auth id = auth.device_id == some id

abbrev pub owns : Auth → String → Bool
owns auth id = is_admin auth || is_device auth id

-- SELECT status FROM v3_registry
abbrev pub status_of : Option RegistryRow → Option Status
status_of none = none
status_of (some r) = some r.status

unfoldable pub registry_status : String → String → Action (Option Status)
registry_status c id = gets (λ db. status_of (find_row (c, id) db.registry))

-- What a device may do before it has acknowledged its keys.
abbrev pub pending_routes : List String
pending_routes = "parameters_get" ∷ "epochs_get" ∷ "epoch_get" ∷ "own_envelopes" ∷ "ack" ∷ []

unfoldable pub allowed_by_status : Option Status → String → Result (Unit {0})
allowed_by_status none route = throw device_unknown
allowed_by_status (some revoked) route = throw device_revoked
allowed_by_status (some pending_keys) route =
    if contains pending_routes route then ok tt else throw device_pending_keys
allowed_by_status (some active) route = ok tt

-- `fetch_one` finds no row, or the device must be active.
abbrev must_be_active : Option Status → Result (Unit {0})
must_be_active none = throw storage_unavailable
must_be_active (some active) = ok tt
must_be_active (some revoked) = throw device_revoked
must_be_active (some pending_keys) = throw device_pending_keys

module _ ⦃x : External⦄ where
  -- The public key of an active device of the chain's generation.
  unfoldable pub active_device : Chain → String → Action String
  active_device c id = do
    found ← object c.chain_id device id
    d ← require found device_unknown
    fail_if (n d "generation" /= generation c) generation_mismatch
    state ← registry_status c.chain_id id
    lift (must_be_active state)
    pure (s d "device_public_key")

  unfoldable pub signing_key : Chain → Value → Action String
  signing_key c v =
      if s v "signer_kind" == "admin"
      then pure (s c.parameters "admin_public_key")
      else active_device c (s v "signer_device_id")

  check_device : Chain → String → String → Action (Unit {0})
  check_device c id route = do
    found ← object c.chain_id device id
    d ← require found device_unknown
    fail_if (n d "generation" /= generation c) generation_mismatch
    state ← registry_status c.chain_id id
    lift (allowed_by_status state route)

  unfoldable pub check_state : Chain → Auth → String → Action (Unit {0})
  unfolding check_device
  check_state c auth route = elim auth.device_id [
    | none ↦ pure tt
    | some id ↦ check_device c id route
  ]
