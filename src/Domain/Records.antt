-- ===== src/Domain/Records.antt =====
-- `record` and `reserve_payload_nonce` of src/api/domain.rs.
pub mod Nonces
use palla_sync.Prelude.{
  ℕ, ◌+◌, Bool, true, false, not, ◌&&◌, ◌||◌, Option, none, some, String, ◌==◌, ◌/=◌, leb, bool_eq,
  nat_eq, text_eq, pair_eq, option_eq, is_some, find_row, add_row, if◌then◌else◌, List,
}
use palla_sync.Decimal.{to_string}
use palla_sync.Json.{Value, ◌!◌, is_null, s, n}
use palla_sync.Error.{
  invalid_field, device_key_mismatch, record_id_conflict, generation_mismatch, epoch_not_found,
  device_unknown, epoch_stale,
}
use palla_sync.Crypto.Primitives.{External}
use palla_sync.Crypto.{object_hash}
use palla_sync.Db.{Chain, Kind, Db}
use palla_sync.Db.Action.{Action, ◌>>=◌, ◌>>◌, pure, lift, gets, require, fail, fail_if, modify}
use palla_sync.Wire.Signed.{verify}
use palla_sync.Wire.Validate.{ObjectKind, validate}
use palla_sync.Store.Hashes.{generation}
use palla_sync.Store.Objects.{object, object_digest}
use palla_sync.Auth.{Auth, is_admin, is_device, active_device}
use palla_sync.Domain.{bound, signing_context, is_text}

abbrev pub PayloadKey : Type 0
PayloadKey = String × (ℕ × String)

abbrev pub payload_key : Chain → Value → PayloadKey
payload_key c v = (c.chain_id, (n v "epoch", s v "payload_nonce"))

-- INSERT OR IGNORE INTO v3_payload_nonces
unfoldable pub reserve_payload_nonce : Chain → Value → Action (Unit {0})
reserve_payload_nonce c v = modify λ db.
    if is_some (find_row (payload_key c v) db.payload_nonces) then db else record db {
      payload_nonces = add_row (payload_key c v) (s v "record_id") db.payload_nonces;
    }

-- Whether the nonce of a payload is another record's.
unfoldable pub nonce_taken : Chain → Value → Db → Bool
nonce_taken c v db = elim (find_row (payload_key c v) db.payload_nonces) [
  | none ↦ false
  | some id ↦ id /= s v "record_id"
]

-- A chain of the private profile has no collection tags, another has them.
abbrev pub wrong_tag : Value → Value → Bool
wrong_tag parameters v =
    is_text (parameters ! "policy" ! "metadata_profile") "private" /= is_null (v ! "collection_tag")

abbrev pub record_kind : Bool → Kind
record_kind snapshot = if snapshot then Kind.snapshot_part else Kind.sync_record

-- Only the admin and the device itself.
abbrev not_owner : Auth → Value → Bool
not_owner auth v = not (is_admin auth) && not (is_device auth (s v "device_id"))

module _ ⦃x : External⦄ where
  abbrev pub record_signing : List ℕ
  record_signing = signing_context "PALLASYNC-SYNC-RECORD-v3"

  -- A snapshot part of the admin's, of this generation or an earlier one.
  unfoldable pub earlier_part : Chain → Value → Action Bool
  earlier_part c v = do
    found_parameters ← object c.chain_id Kind.parameters (to_string (n v "generation"))
    parameters ← require found_parameters generation_mismatch
    found_epoch ← object c.chain_id Kind.epoch (to_string (n v "epoch"))
    epoch ← require found_epoch epoch_not_found
    found_device ← object c.chain_id Kind.device (s v "device_id")
    d ← require found_device device_unknown
    fail_if (n d "generation" /= n v "generation" || n epoch "generation" /= n v "generation")
        generation_mismatch
    lift (verify v (s d "device_public_key") record_signing)
    fail_if (wrong_tag parameters v) invalid_field
    taken ← gets (nonce_taken c v)
    fail_if taken invalid_field
    pure false

  -- A record of the chain's epoch, signed by an active device.
  unfoldable pub current_record : Chain → Value → Auth → Action Bool
  current_record c v auth = do
    lift (bound v c)
    fail_if (not_owner auth v) device_key_mismatch
    key ← active_device c (s v "device_id")
    lift (verify v key record_signing)
    fail_if (n v "epoch" /= n c.epoch "epoch") epoch_stale
    fail_if (wrong_tag c.parameters v) invalid_field
    taken ← gets (nonce_taken c v)
    fail_if taken invalid_field
    pure false

  abbrev pub new_record : Chain → Value → Auth → Bool → Bool → Action Bool
  new_record c v auth snapshot staged =
      if staged && is_admin auth && (n v "generation" == generation c + 1)
      then pure false
      else (if snapshot && is_admin auth && leb (n v "generation") (generation c)
          then earlier_part c v
          else current_record c v auth)

  abbrev pub record_by_digest : Option String → Chain → Value → Auth → Bool → Bool → Action Bool
  record_by_digest none c v auth snapshot staged = new_record c v auth snapshot staged
  record_by_digest (some digest) c v auth snapshot staged =
      if digest /= object_hash v then fail record_id_conflict else pure true

  -- `record`: whether the record is in the store already.
  unfoldable pub check_record : Chain → Value → Auth → Bool → Bool → Action Bool
  check_record c v auth snapshot staged = do
    lift (validate v ObjectKind.sync_record)
    fail_if (s v "chain_id" /= c.chain_id) invalid_field
    fail_if (not_owner auth v) device_key_mismatch
    found ← object_digest c.chain_id (record_kind snapshot) (s v "record_id")
    record_by_digest found c v auth snapshot staged
