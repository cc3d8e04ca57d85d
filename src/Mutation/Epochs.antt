-- ===== src/Mutation/Epochs.antt =====
-- `epoch` of src/api/mutation.rs: a rotation, or the revocation of a device.
use palla_sync.Prelude.{
  Bool, true, false, not, ◌&&◌, ◌||◌, Option, none, some, List, [], ◌∷◌, String, ◌/=◌, ltb, nat_eq,
  text_eq, option_eq, length, is_empty, is_some, contains, any, if◌then◌else◌,
}
use palla_sync.Json.{Value, str, ◌!◌, lookup, is_null, array, object as json, s, n, a, value_beq}
use palla_sync.Error.{
  cas_mismatch, rotation_not_allowed, enrollment_certificate_invalid, member_set_mismatch,
  invalid_field, device_limit_reached,
}
use palla_sync.Crypto.Primitives.{External}
use palla_sync.Crypto.{object_hash}
use palla_sync.Db.{Chain}
use palla_sync.Db.Action.{Action, ◌>>=◌, ◌>>◌, pure, lift, fail_if}
use palla_sync.Config.{RelayConfig, limits}
use palla_sync.Wire.Types.{Schema, fields, object, array as array_type, optional, bytes}
use palla_sync.Wire.Validate.{ObjectKind, validate}
use palla_sync.Store.Hashes.{epoch_hash}
use palla_sync.Store.Outcomes.{outcomes, outcome}
use palla_sync.Auth.{Auth, is_admin, is_device}
use palla_sync.Domain.{admin_operation, target}
use palla_sync.Domain.Devices.{check_device}
use palla_sync.Domain.Bundles.{bundle}
use palla_sync.Domain.Commit.{Committed, commit_epoch}
use palla_sync.Mutation.{Reply, reply, or_new, repeated}

abbrev epoch_fields : Schema
epoch_fields =
    ("expected_epoch_hash", bytes 32)
    ∷ ("epoch", object)
    ∷ ("envelopes", array_type)
    ∷ ("admin_operation", optional object)
    ∷ []

abbrev is_revoking : Value → Bool
is_revoking e = not (is_empty (a e "revoked_device_ids"))

-- The epoch must revoke the device that the request is about.
abbrev misses : Value → Option String → Bool
misses e none = false
misses e (some id) =
    not (any (value_beq (str id)) (a e "revoked_device_ids"))
    || not (contains ("device_revocation" ∷ "emergency" ∷ []) (s e "reason"))

abbrev given : Value → Option Value
given op = if is_null op then none else some op

module _ ⦃x : External⦄ where
  unfoldable pub check_staged : Chain → List Value → Action (Unit {0})
  check_staged c [] = pure tt
  check_staged c (d ∷ ds) = do
    check_device c d none true
    fail_if (s (d ! "enrollment") "signer_kind" /= "admin") enrollment_certificate_invalid
    check_staged c ds

  unfoldable pub check_operation : Chain → Auth → Value → Option String → Action (Unit {0})
  check_operation c auth v device =
      if is_admin auth && (is_revoking (v ! "epoch") || is_some device)
      then admin_operation c (v ! "admin_operation") "revoke_device"
          (target v ("epoch" ∷ "envelopes" ∷ "device_records" ∷ []))
      else fail_if (not (is_null (v ! "admin_operation"))) invalid_field

  -- What makes a new epoch acceptable.
  unfoldable pub check_epoch :
      Chain → RelayConfig → Auth → Value → Option String → Action (Unit {0})
  unfolding check_staged check_operation
  check_epoch c cfg auth v device = do
    let e = v ! "epoch"
    fail_if (s v "expected_epoch_hash" /= epoch_hash c) cas_mismatch
    fail_if
        (is_some (lookup v "device_records")
          && (not (is_admin auth) || s e "reason" /= "emergency"))
        rotation_not_allowed
    check_staged c (a v "device_records")
    fail_if
        (not (is_admin auth)
          && (not (is_device auth (s e "signer_device_id")) || s e "signer_kind" /= "device"))
        rotation_not_allowed
    fail_if (misses e device) member_set_mismatch
    check_operation c auth v device
    bundle c e (a v "envelopes") (a v "device_records") false false
    fail_if (ltb (n (limits cfg) "max_devices") (length (a e "members"))) device_limit_reached

  abbrev epoch_response : Option String → Committed → Value
  epoch_response (some id) m = json (
      ("device_id", str id)
      ∷ ("status", str "revoked")
      ∷ ("epoch_hash", str (epoch_hash m.chain))
      ∷ ("receipt", m.entry)
      ∷ ("upload_receipts", array m.receipts)
      ∷ [])
  epoch_response none m = json (
      ("epoch_hash", str (epoch_hash m.chain))
      ∷ ("receipt", m.entry)
      ∷ ("upload_receipts", array m.receipts)
      ∷ [])

  unfoldable pub new_epoch : Chain → RelayConfig → Auth → Value → Option String → Action Reply
  new_epoch c cfg auth v device = do
    check_epoch c cfg auth v device
    m ← commit_epoch c cfg (record {
      epoch = v ! "epoch";
      envelopes = a v "envelopes";
      staged = a v "device_records";
      admin = given (v ! "admin_operation");
      genesis = false;
    })
    let response = epoch_response device m
    outcome m.chain.chain_id "epoch" (object_hash (v ! "epoch")) v response
    pure (reply (if is_some device then 200 else 201) response m.chain)

  unfoldable pub change_epoch : Chain → RelayConfig → Auth → Value → Option String → Action Reply
  unfolding new_epoch
  change_epoch c cfg auth v device = do
    lift (fields v epoch_fields (("device_records", array_type) ∷ []))
    lift (validate (v ! "epoch") ObjectKind.epoch)
    known ← outcomes c.chain_id "epoch" (object_hash (v ! "epoch")) v
    or_new known (repeated c) (new_epoch c cfg auth v device)
