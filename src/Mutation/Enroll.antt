-- ===== src/Mutation/Enroll.antt =====
-- `enroll` of src/api/mutation.rs.
use palla_sync.Prelude.{
  ℕ, ◌-◌, Bool, true, false, not, ◌&&◌, ◌||◌, Option, none, some, List, [], ◌∷◌, ◌++◌, String, ◌==◌,
  ◌/=◌, ltb, leb, nat_eq, text_eq, pair_eq, option_eq, length, is_empty, is_some, is_none, contains,
  count_rows, if◌then◌else◌,
}
use palla_sync.Decimal.{to_string}
use palla_sync.Json.{Value, str, ◌!◌, is_null, as_u64, array, object as json, s, n, a}
use palla_sync.Error.{
  ok, enrollment_not_allowed, device_id_conflict, enrollment_certificate_invalid,
  device_limit_reached, invalid_field, envelope_access_denied, epoch_stale, history_key_expired,
}
use palla_sync.Crypto.Primitives.{External}
use palla_sync.Crypto.{object_hash}
use palla_sync.Db.{
  Chain, Kind, kind_eq, pending_keys, revoked, ObjectKey, ObjectRow, RegistryRow, Db,
}
use palla_sync.Db.Action.{Action, ◌>>=◌, ◌>>◌, pure, lift, gets, fail_if, require}
use palla_sync.Config.{RelayConfig, limits}
use palla_sync.Wire.Types.{FieldType, Schema, fields, object, array as array_type, optional}
use palla_sync.Wire.Validate.{ObjectKind, validate}
use palla_sync.Store.Hashes.{generation}
use palla_sync.Store.Objects.{object as find_body, object_digest}
use palla_sync.Store.Outcomes.{outcomes, outcome}
use palla_sync.Store.Append.{append}
use palla_sync.Auth.{Auth, is_admin, require_admin}
use palla_sync.Domain.{policy, is_text, allows, admin_operation, target}
use palla_sync.Domain.Devices.{check_device, register}
use palla_sync.Domain.Envelopes.{check_envelope}
use palla_sync.Domain.Commit.{append_all}
use palla_sync.Mutation.{Reply, reply, or_new, repeated}

abbrev operation_type : Option Value → FieldType
operation_type none = object
operation_type (some r) = optional object

abbrev enroll_fields : Option Value → Schema
enroll_fields request =
    ("device_record", object)
    ∷ ("envelopes", array_type)
    ∷ ("admin_operation", operation_type request)
    ∷ []

-- Behind an immediate retention, the epoch before must have been handed off.
abbrev not_handed_off : Chain → Db → Bool
not_handed_off c db =
    is_text (policy c "epoch_retention") "immediate"
    && ltb 0 (n c.epoch "epoch")
    && (count_rows (λ k r. (k.0 == c.chain_id) && (k.1 == n c.epoch "epoch" - 1)) db.handoffs == 0)

abbrev live_device : String → ℕ → String × String → RegistryRow → Bool
live_device c g k r =
    (k.0 == c) && (r.generation == g) && (elim r.status [ revoked ↦ false | _ ↦ true ])

-- The recovery envelopes of an epoch.
abbrev is_recovery : String → ℕ → ObjectKey → ObjectRow → Bool
is_recovery c epoch k r = elim r.body [
  | none ↦ false
  | some v ↦
      (k.0 == c)
      && (k.1.0 == Kind.envelope)
      && (as_u64 (v ! "epoch") == some epoch)
      && is_text (v ! "recipient_kind") "recovery"
]

-- The device that the certificate names may only be another one's peer.
abbrev not_peer : Chain → Auth → Value → Bool
not_peer c auth d =
    not (is_admin auth)
    && (not (allows c "allow_peer_enrollment")
        || not (auth.device_id == some (s (d ! "enrollment") "signer_device_id")))

module _ ⦃x : External⦄ where
  -- An old envelope counts only while its epoch's recovery envelope is there.
  abbrev pub lost_history : Chain → Value → Db → Bool
  lost_history c e db =
      ltb (n e "epoch") (n c.epoch "epoch")
      && not (is_text (policy c "epoch_retention") "retain")
      && (count_rows (is_recovery c.chain_id (n e "epoch")) db.objects == 0)

  -- The loop over the envelopes: whether one is of the chain's epoch.
  unfoldable pub check_deliveries : Chain → Value → List String → Bool → List Value → Action Bool
  check_deliveries c d ids current [] = pure current
  check_deliveries c d ids current (e ∷ es) = do
    fail_if
        (s e "recipient_kind" /= "device"
          || s e "recipient_device_id" /= s d "device_id"
          || contains ids (s e "envelope_id"))
        envelope_access_denied
    found ← find_body c.chain_id Kind.epoch (to_string (n e "epoch"))
    epoch ← require found epoch_stale
    check_envelope c e epoch (d ∷ [])
    lost ← gets (lost_history c e)
    fail_if lost history_key_expired
    check_deliveries c d (s e "envelope_id" ∷ ids) (current || (n e "epoch" == n c.epoch "epoch"))
        es

  unfoldable pub check_authority : Chain → Auth → Value → Action (Unit {0})
  check_authority c auth v =
      if is_admin auth
      then admin_operation c (v ! "admin_operation") "approve_enrollment"
          (target v ("device_record" ∷ "envelopes" ∷ []))
      else fail_if (not (is_null (v ! "admin_operation"))) invalid_field

  -- What makes a new device acceptable.
  unfoldable pub check_enrollment :
      Chain → RelayConfig → Auth → Value → Option Value → Action (Unit {0})
  unfolding check_authority
  check_enrollment c cfg auth v request = do
    let d = v ! "device_record"
    check_device c d request false
    old ← object_digest c.chain_id Kind.device (s d "device_id")
    fail_if (is_some old) device_id_conflict
    fail_if (is_none request && s (d ! "enrollment") "signer_kind" /= "admin")
        enrollment_certificate_invalid
    fail_if (not_peer c auth d) enrollment_not_allowed
    count ← gets (λ db. count_rows (live_device c.chain_id (generation c)) db.registry)
    fail_if (leb (n (limits cfg) "max_devices") count) device_limit_reached
    check_authority c auth v
    fail_if (is_empty (a v "envelopes") || ltb 128 (length (a v "envelopes"))) invalid_field
    current ← check_deliveries c d [] false (a v "envelopes")
    fail_if (not current) epoch_stale

  abbrev operations : Auth → Value → List Value
  operations auth v = if is_admin auth then v ! "admin_operation" ∷ [] else []

  unfoldable pub store_enrollment : Chain → RelayConfig → Auth → Value → Action Reply
  store_enrollment c cfg auth v = do
    let d = v ! "device_record"
    e ← append c cfg Kind.device d
    register e.chain d (n e.entry "relay_seq") pending_keys
    (c₁, envelopes) ← append_all e.chain cfg Kind.envelope (a v "envelopes")
    (c₂, approvals) ← append_all c₁ cfg Kind.admin (operations auth v)
    let response = json (
        ("device_id", str (s d "device_id"))
        ∷ ("status", str "pending_keys")
        ∷ ("device_record_hash", str (object_hash d))
        ∷ ("upload_receipts", array (e.receipt ∷ (envelopes ++ approvals)))
        ∷ [])
    outcome c.chain_id "enroll" (s d "device_id") v response
    pure (reply 201 response c₂)

  abbrev pub new_enrollment : Chain → RelayConfig → Auth → Value → Option Value → Action Reply
  new_enrollment c cfg auth v request =
      check_enrollment c cfg auth v request >> store_enrollment c cfg auth v

  unfoldable pub enroll : Chain → RelayConfig → Auth → Value → Option Value → Action Reply
  unfolding store_enrollment
  enroll c cfg auth v request = do
    lift (fields v (enroll_fields request) [])
    lift (if is_none request then require_admin auth else ok tt)
    barred ← gets (not_handed_off c)
    fail_if barred enrollment_not_allowed
    lift (validate (v ! "device_record") ObjectKind.device)
    known ← outcomes c.chain_id "enroll" (s (v ! "device_record") "device_id") v
    or_new known (repeated c) (new_enrollment c cfg auth v request)
