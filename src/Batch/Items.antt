-- ===== src/Batch/Items.antt =====
-- What a batch does for one item (the inner block of `upload` in src/api/batch.rs).
use palla_sync.Prelude.{
  ℕ, zero, suc, Bool, not, ◌&&◌, Option, none, some, List, [], ◌∷◌, String, ◌/=◌, nat_eq, text_eq,
  pair_eq, option_eq, is_some, contains, find_row, if◌then◌else◌,
}
use palla_sync.Decimal.{to_string}
use palla_sync.Json.{Value, null, str, bool, object as json, ◌!◌, is_null, s, n, a, value_beq}
use palla_sync.Error.{
  envelope_access_denied, invalid_field, device_key_mismatch, epoch_not_found, history_key_expired,
  repair_proof_required, chain_not_found,
}
use palla_sync.Crypto.Primitives.{External}
use palla_sync.Db.{Chain, Kind, LogRow}
use palla_sync.Db.Action.{Action, ◌>>=◌, ◌>>◌, pure, lift, fail_if, fail_with, gets, require}
use palla_sync.Config.{RelayConfig, write_guard}
use palla_sync.Wire.Types.{Schema, fields, object, int, one_of}
use palla_sync.Wire.Validate.{ObjectKind, validate}
use palla_sync.Store.Objects.{object as find_body, object_digest}
use palla_sync.Store.Append.{Appended, append, store_snapshot_part, or_null}
use palla_sync.Auth.{Auth, is_admin, is_device, active_device}
use palla_sync.Domain.{bound}
use palla_sync.Domain.Envelopes.{check_envelope}
use palla_sync.Domain.Records.{check_record, reserve_payload_nonce}
use palla_sync.Retention.{expired}
use palla_sync.Deletion.{deletion_proof, gone}

-- The routes that upload.
pub data UploadRoute : Type 0 where
  records_post parts_post envelopes_post repair : UploadRoute

-- The chain that an item has changed, what is accepted, and its receipt.
pub record Item : Type 0 where
  pub chain : Chain
  pub accepted : Value
  pub receipt : Value

abbrev pub id_key : UploadRoute → String
id_key envelopes_post = "envelope_id"
id_key route = "record_id"

abbrev pub item_kind : UploadRoute → ObjectKind
item_kind envelopes_post = ObjectKind.envelope
item_kind route = ObjectKind.sync_record

abbrev source_fields : Schema
source_fields =
    ("relay_seq", int)
    ∷ ("received_at_ms", int)
    ∷ ("kind", one_of ("record" ∷ []))
    ∷ ("object", object)
    ∷ []

-- `list[index]`; a request whose lists differ in length was refused before.
abbrev pub nth : List Value → ℕ → Value
nth [] i = null
nth (v ∷ vs) zero = v
nth (v ∷ vs) (suc i) = nth vs i

abbrev entry_of : Option LogRow → Value
entry_of none = null
entry_of (some l) = or_null l.entry

abbrev accepted_record : Value → Bool → Value → Value
accepted_record r duplicate entry =
    json (("record_id", r ! "record_id") ∷ ("duplicate", bool duplicate) ∷ ("receipt", entry) ∷ [])

-- The entry of a removed duplicate, from its signed object and its receipt.
abbrev restored : Value → Value → Value
restored r receipt = json (
    ("relay_seq", receipt ! "relay_seq")
    ∷ ("received_at_ms", receipt ! "received_at_ms")
    ∷ ("kind", str "record")
    ∷ ("object", r)
    ∷ [])

abbrev pub check_deletion : Option Value → Action (Unit {0})
check_deletion none = pure tt
check_deletion (some proof) = fail_with (gone proof)

module _ ⦃x : External⦄ where
  abbrev pub check_device : Chain → Option String → Action (Unit {0})
  check_device c none = pure tt
  check_device c (some id) = active_device c id >>= λ _. pure tt

  -- What is checked before every item.
  unfoldable pub admit_item : Chain → RelayConfig → Auth → String → Action (Unit {0})
  admit_item c cfg auth chain = do
    write_guard cfg
    proof ← deletion_proof chain
    check_deletion proof
    check_device c auth.device_id

  unfoldable pub upload_envelope :
      Chain → RelayConfig → Auth → String → String → Value → Action Item
  upload_envelope c cfg auth chain param r = do
    lift (validate r ObjectKind.envelope)
    fail_if (s r "recipient_kind" /= "device") envelope_access_denied
    fail_if (to_string (n r "epoch") /= param) invalid_field
    fail_if (not (is_admin auth) && not (is_device auth (s r "signer_device_id")))
        device_key_mismatch
    found ← find_body chain Kind.epoch param
    ep ← require found epoch_not_found
    is_expired ← expired c (n r "epoch")
    fail_if is_expired history_key_expired
    check_envelope c r ep []
    e ← append c cfg Kind.envelope r
    pure (record { chain = e.chain; accepted = str (s r "envelope_id"); receipt = e.receipt })

  abbrev repaired : Value → Bool → Value → Appended → Item
  repaired r duplicate source e = record {
    chain = e.chain;
    accepted = accepted_record r duplicate (if is_null e.entry then source else e.entry);
    receipt = e.receipt;
  }

  -- A record is repaired only from an entry that this relay has in its log.
  unfoldable pub upload_repair : Chain → RelayConfig → String → Value → Value → Value → Action Item
  upload_repair c cfg chain v source r = do
    lift (validate r ObjectKind.sync_record)
    lift (bound r c)
    lift (fields source source_fields [])
    fail_if (not (value_beq (source ! "object") r)) repair_proof_required
    row ← gets (λ db. find_row (chain, (s v "source_log_id", n source "relay_seq")) db.log)
    fail_if (not (value_beq (entry_of row) source)) repair_proof_required
    known ← object_digest chain Kind.sync_record (s r "record_id")
    e ← append c cfg Kind.sync_record r
    pure (repaired r (is_some known) source e)

  abbrev uploaded : Value → Bool → Appended → Item
  uploaded r duplicate e = record {
    chain = e.chain;
    accepted =
        accepted_record r duplicate (if is_null e.entry then restored r e.receipt else e.entry);
    receipt = e.receipt;
  }

  unfoldable pub store_item : Chain → RelayConfig → Bool → Bool → Value → Action Item
  store_item c cfg snapshot duplicate r =
      if snapshot
      then (store_snapshot_part c cfg r >>= λ p.
          pure (record { chain = p.0; accepted = str (s r "record_id"); receipt = p.1 }))
      else (append c cfg Kind.sync_record r >>= λ e. pure (uploaded r duplicate e))

  unfoldable pub upload_record : Chain → RelayConfig → Auth → String → Bool → Value → Action Item
  upload_record c cfg auth chain snapshot r = do
    fail_if (not c.writable && not snapshot) chain_not_found
    staged ← gets (λ db. contains db.imports chain)
    duplicate ← check_record c r auth snapshot staged
    reserve_payload_nonce c r
    store_item c cfg snapshot duplicate r

  unfoldable pub upload_item :
      Chain → RelayConfig → Auth → String → UploadRoute → String → Value → ℕ → Value → Action Item
  upload_item c cfg auth chain envelopes_post param v index r =
      upload_envelope c cfg auth chain param r
  upload_item c cfg auth chain repair param v index r =
      upload_repair c cfg chain v (nth (a v "receipts") index) r
  upload_item c cfg auth chain records_post param v index r =
      upload_record c cfg auth chain Bool.false r
  upload_item c cfg auth chain parts_post param v index r =
      upload_record c cfg auth chain Bool.true r
