-- ===== src/Deletion.antt =====
-- Deletion of a chain (`delete`, `delete_receipt`, `proof` and `gone` of src/api/deletion.rs).
pub mod Certificates
pub mod Erasure
use palla_sync.Prelude.{
  ℕ, ◌+◌, Bool, not, ◌&&◌, Option, none, some, List, [], ◌∷◌, ◌++◌, String, ◌==◌, text_eq, is_some,
  find_row, add_row, map_to, if◌then◌else◌,
}
use palla_sync.Json.{
  Value, null, num, str, array, object as json, opt_str, ◌!◌, is_null, s, n, set_member,
}
use palla_sync.Error.{
  ApiError, with_context, failed, chain_deleted, admin_required, invalid_field, internal_error,
}
use palla_sync.Crypto.Primitives.{External}
use palla_sync.Crypto.{sign_relay, object_hash}
use palla_sync.Db.{Chain, Kind, admin, DeletionRow, Db}
use palla_sync.Db.Action.{
  Action, ◌>>=◌, ◌>>◌, pure, lift, fail, fail_if, gets, require, now, insert_unless,
}
use palla_sync.Config.{RelayConfig}
use palla_sync.Wire.Types.{Schema, fields, optional, object, uuid, bytes}
use palla_sync.Store.Hashes.{parameters_hash, epoch_hash}
use palla_sync.Store.Append.{append}
use palla_sync.Store.Transparency.{transparency}
use palla_sync.Auth.{Auth, is_admin}
use palla_sync.Domain.{cas, admin_operation, target, allows, signing_context}
use palla_sync.Deletion.Certificates.{walk_from, first_key}

abbrev pub delete_fields : Schema
delete_fields =
    ("deletion_id", uuid)
    ∷ ("expected_parameters_hash", bytes 32)
    ∷ ("expected_epoch_hash", bytes 32)
    ∷ ("admin_operation", optional object)
    ∷ []

abbrev delete_members : List String
delete_members = "deletion_id" ∷ "expected_parameters_hash" ∷ "expected_epoch_hash" ∷ []

abbrev pub delete_signing : List ℕ
delete_signing = signing_context "PALLASYNC-DELETE-RECEIPT-v3"

-- `proof`
abbrev pub proof_of : DeletionRow → Value
proof_of r = r.proof

unfoldable pub deletion_proof : String → Action (Option Value)
deletion_proof c = gets (λ db. map_to proof_of (find_row c db.deletions))

unfoldable pub gone : Value → ApiError
gone proof =
    let l = proof ! "ledger" in
    with_context (failed chain_deleted) (
      json (
        ("deletion_id", l ! "deletion_id")
        ∷ ("assurance", l ! "assurance")
        ∷ ("delete_after_ms", l ! "delete_after_ms")
        ∷ ("receipt_hash", l ! "receipt_hash")
        ∷ []))

-- What a device signs for instead of the admin.
abbrev device_authorization : Auth → Value → Value
device_authorization auth v = json (("token", auth.token) ∷ ("request", v) ∷ [])

-- INSERT INTO v3_deletions
unfoldable pub insert_deletion : String → DeletionRow → Action (Unit {0})
insert_deletion c r w =
    insert_unless (is_some (find_row c w.deletions))
      (λ db. record db { deletions = add_row c r db.deletions }) w

module _ ⦃x : External⦄ where
  -- The hash of what authorizes the deletion.
  unfoldable pub authorize : Chain → Auth → Value → Action String
  authorize c auth v =
      let op = v ! "admin_operation" in
      if is_admin auth
      then (admin_operation c op "delete_chain" (target v delete_members) >> pure (object_hash op))
      else if is_null op
      then pure (object_hash (device_authorization auth v))
      else fail invalid_field

  -- The admin's operation enters the log.
  unfoldable pub append_operation : Chain → RelayConfig → Auth → Value → Action (Chain × List Value)
  append_operation c cfg auth v =
      if is_admin auth
      then (append c cfg admin (v ! "admin_operation") >>= λ e. pure (e.chain, e.receipt ∷ []))
      else pure (c, [])

  abbrev unsealed : Chain → Value → String → ℕ → ℕ → Value
  unsealed c v authority t deadline = json (
      ("chain_id", str c.chain_id)
      ∷ ("deletion_id", v ! "deletion_id")
      ∷ ("authorized_parameters_hash", str (parameters_hash c))
      ∷ ("authorized_epoch_hash", str (epoch_hash c))
      ∷ ("authorization_hash", str authority)
      ∷ ("requested_at_ms", num t)
      ∷ ("completed_at_ms", null)
      ∷ ("assurance", str "backup-expiry")
      ∷ ("delete_after_ms", num deadline)
      ∷ [])

  -- The ledger of a deletion, closed by its own hash.
  unfoldable pub deletion_ledger : Chain → Value → String → ℕ → ℕ → Value
  deletion_ledger c v authority t deadline =
      let ledger = unsealed c v authority t deadline in
      set_member ledger "receipt_hash" (str (object_hash ledger))

  unfoldable pub delete_receipt : Chain → RelayConfig → Value → ℕ → String → Action Value
  delete_receipt c cfg ledger index hash =
      require
        (sign_relay cfg.key
          (json (
            ("type", str "PALLASYNC-DELETE-RECEIPT-v3")
            ∷ ("version", str "3.0")
            ∷ ("chain_id", str c.chain_id)
            ∷ ("log_id", str c.log_id)
            ∷ ("relay_key_id", str cfg.key_id)
            ∷ ("deletion_id", ledger ! "deletion_id")
            ∷ ("authorized_parameters_hash", ledger ! "authorized_parameters_hash")
            ∷ ("authorized_epoch_hash", ledger ! "authorized_epoch_hash")
            ∷ ("authorization_hash", ledger ! "authorization_hash")
            ∷ ("requested_at_ms", ledger ! "requested_at_ms")
            ∷ ("completed_at_ms", ledger ! "completed_at_ms")
            ∷ ("assurance", ledger ! "assurance")
            ∷ ("delete_after_ms", ledger ! "delete_after_ms")
            ∷ ("ledger_receipt_hash", ledger ! "receipt_hash")
            ∷ ("transparency_id", str c.transparency_id)
            ∷ ("transparency_index", num index)
            ∷ ("transparency_hash", str hash)
            ∷ []))
          delete_signing)
        internal_error

  -- The evidence that stays when the chain is erased.
  abbrev evidence : Chain → Auth → Value → Value → List Value → Value → Value → Value
  evidence c auth v ledger certificates receipt entry = json (
      ("ledger", ledger)
      ∷ ("parameters", c.parameters)
      ∷ ("epoch", c.epoch)
      ∷ ("enrollment_chain", array certificates)
      ∷ ("admin_operation", v ! "admin_operation")
      ∷ ("device_authorization", if is_admin auth then null else device_authorization auth v)
      ∷ ("delete_receipt", receipt)
      ∷ ("deletion_transparency_entry", entry)
      ∷ [])

  abbrev deleting : Value → ℕ → Value → Value → List Value → Value
  deleting v deadline ledger receipt receipts = json (
      ("deletion_id", v ! "deletion_id")
      ∷ ("state", str "deleting")
      ∷ ("assurance", str "backup-expiry")
      ∷ ("delete_after_ms", num deadline)
      ∷ ("receipt_hash", ledger ! "receipt_hash")
      ∷ ("delete_receipt", receipt)
      ∷ ("upload_receipts", array receipts)
      ∷ [])

  -- The part of `delete` behind its checks, with the chain that it has changed.
  unfoldable pub record_deletion :
      Chain → RelayConfig → Auth → Value → String → Action (Chain × Value)
  record_deletion c cfg auth v authority = do
    (c₁, receipts) ← append_operation c cfg auth v
    t ← now
    let deadline = t + n (cfg.privacy ! "deletion") "active_delete_max_ms"
    let ledger = deletion_ledger c₁ v authority t deadline
    r ← transparency c₁ cfg "delete" (object_hash ledger) none none
    receipt ← delete_receipt r.chain cfg ledger r.chain.transparency_index r.chain.transparency_hash
    walked ← gets (λ db. walk_from db c.chain_id auth.device_id)
    certificates ← lift walked
    key ← gets (λ db. first_key db c.chain_id auth.device_id)
    let response = deleting v deadline ledger receipt receipts
    insert_deletion c.chain_id (record {
      deleting_device_id = auth.device_id;
      admin_public_key = s c.parameters "admin_public_key";
      device_public_key = key;
      proof = evidence r.chain auth v ledger certificates receipt r.entry;
      outcome = response;
      request_hash = object_hash v;
    })
    pure (r.chain, response)

  -- `delete`
  unfoldable pub delete : Chain → RelayConfig → Auth → Value → Action (Chain × Value)
  delete c cfg auth v = do
    lift (fields v delete_fields [])
    fail_if (not (is_admin auth) && not (allows c "allow_device_chain_delete")) admin_required
    lift (cas c (v ! "expected_parameters_hash") (v ! "expected_epoch_hash"))
    authority ← authorize c auth v
    record_deletion c cfg auth v authority
