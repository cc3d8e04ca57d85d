-- ===== src/Domain/Devices.antt =====
-- `device` and `register` of src/api/domain.rs.
use palla_sync.Prelude.{
  option_eq, ℕ, ◌+◌, Bool, true, false, not, ◌&&◌, ◌||◌, Option, none, some, List, [], ◌∷◌, String,
  ◌==◌, ◌/=◌, nat_eq, text_eq, pair_eq, is_none, is_some, find_row, add_row, count_rows,
  if◌then◌else◌,
}
use palla_sync.Decimal.{to_string}
use palla_sync.Json.{Value, ◌!◌, opt_str, as_str, s, n, value_beq}
use palla_sync.Error.{
  Result, ok, reject_if, or_code, enrollment_certificate_invalid, epoch_stale, device_id_conflict,
}
use palla_sync.Crypto.Primitives.{External}
use palla_sync.Crypto.{object_hash}
use palla_sync.Db.{Chain, device, epoch, kind_eq, Status, RegistryRow, ObjectKey, ObjectRow, Db}
use palla_sync.Db.Action.{Action, ◌>>=◌, ◌>>◌, lift, gets, fail_if, or_fail, insert_unless}
use palla_sync.Wire.Signed.{verify}
use palla_sync.Wire.Validate.{ObjectKind, validate, differ_at}
use palla_sync.Store.Objects.{object, object_digest}
use palla_sync.Auth.{signing_key}
use palla_sync.Domain.{bound, signing_context, is_other, allows}

-- SELECT … json_extract(body,'$.enrollment.certificate_id')=? AND object_id<>?
abbrev certified_again : String → String → String → ObjectKey → ObjectRow → Bool
certified_again c certificate id k r = elim r.body [
  | none ↦ false
  | some d ↦
      (k.0 == c)
      && (k.1.0 == device)
      && (as_str (d ! "enrollment" ! "certificate_id") == some certificate)
      && (k.1.1 /= id)
]

-- INSERT INTO v3_registry; a trigger adds the row to the history.
abbrev pub with_registry : String → String → RegistryRow → Db → Db
with_registry c id r db = record db {
  registry = add_row (c, id) r db.registry;
  registry_history = (c, (id, r)) ∷ db.registry_history;
}

unfoldable pub register : Chain → Value → ℕ → Status → Action (Unit {0})
register c d seq status w =
    insert_unless (is_some (find_row (c.chain_id, s d "device_id") w.registry))
      (with_registry c.chain_id (s d "device_id") (record {
        generation = n d "generation";
        status = status;
        enrolled_seq = seq;
        revoked_seq = none;
      }))
      w

abbrev request_members : List String
request_members =
    "device_id" ∷ "device_public_key" ∷ "device_kex_public_key" ∷ "chain_id" ∷ "generation" ∷ []

module _ ⦃x : External⦄ where
  abbrev hash_of : Option Value → Option String
  hash_of none = none
  hash_of (some r) = some (object_hash r)

  abbrev matches_request : Value → Option Value → Result (Unit {0})
  matches_request d none = ok tt
  matches_request d (some r) =
      reject_if (differ_at request_members d r) enrollment_certificate_invalid

  -- The epoch of the device's metadata is there; at genesis it is the chain's or the next.
  unfoldable pub check_meta_epoch : Chain → Value → Bool → Action (Unit {0})
  check_meta_epoch c d true = lift (
      reject_if (n d "meta_epoch" /= n c.epoch "epoch" && n d "meta_epoch" /= n c.epoch "epoch" + 1)
        epoch_stale)
  check_meta_epoch c d false = do
    found ← object c.chain_id epoch (to_string (n d "meta_epoch"))
    fail_if (is_none found) epoch_stale

  abbrev enrolled_by : Value → String → Result (Unit {0})
  enrolled_by cert key =
      or_code (verify cert key (signing_context "PALLASYNC-ENROLLMENT-v3"))
        enrollment_certificate_invalid

  -- The certificate is signed by another device, where the chain allows that, or by the admin.
  unfoldable pub check_certificate : Chain → Value → Option Value → Action (Unit {0})
  check_certificate c d request =
      let cert = d ! "enrollment" in
      if s cert "signer_kind" == "device"
      then (fail_if
            (not (allows c "allow_peer_enrollment")
              || is_none request
              || s cert "signer_device_id" == s d "device_id")
            enrollment_certificate_invalid
          >> (or_fail (signing_key c cert) enrollment_certificate_invalid >>= λ key.
              lift (enrolled_by cert key)))
      else lift (enrolled_by cert (s c.parameters "admin_public_key"))

  unfoldable pub check_device : Chain → Value → Option Value → Bool → Action (Unit {0})
  unfolding check_meta_epoch check_certificate
  check_device c d request genesis = do
    lift (validate d ObjectKind.device)
    lift (bound d c)
    lift (verify d (s d "device_public_key") (signing_context "PALLASYNC-DEVICE-RECORD-v3"))
    fail_if (not (value_beq (opt_str (hash_of request)) (d ! "enrollment" ! "request_hash")))
        enrollment_certificate_invalid
    lift (matches_request d request)
    check_meta_epoch c d genesis
    check_certificate c d request
    old ← object_digest c.chain_id device (s d "device_id")
    fail_if (is_other old (object_hash d)) device_id_conflict
    let cert = d ! "enrollment"
    same_cert ← gets (λ db.
        count_rows (certified_again c.chain_id (s cert "certificate_id") (s d "device_id"))
          db.objects)
    fail_if (same_cert /= 0) enrollment_certificate_invalid
