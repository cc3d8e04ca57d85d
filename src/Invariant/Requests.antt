-- ===== src/Invariant/Requests.antt =====
-- The deletion of a chain (src/api/deletion.rs) and an item of a batch (src/api/batch.rs) keep an
-- invariant that each write keeps.
use palla_sync.Store.Append.{receipt, new_snapshot_part, store_snapshot_part}
use palla_sync.Json.{Value, a}
use palla_sync.Batch.Items.{
  UploadRoute, envelopes_post, repair, records_post, parts_post, nth, check_device as item_device,
  upload_envelope, upload_repair, upload_record, upload_item, check_deletion, store_item,
}
use palla_sync.Prelude.{String, Option, arith, some, Bool, ℕ, none, false, true}
use palla_sync.Crypto.Primitives.{External}
use palla_sync.Db.{Db, Chain}
use palla_sync.Invariant.{IsStable, Value, String, Keeps, Option, Bool, ℕ}
use palla_sync.Deletion.{
  authorize, append_operation, record_deletion, delete, delete_receipt, deletion_proof,
}
use palla_sync.Batch.Items.{admit_item}
use palla_sync.Config.{RelayConfig, write_guard}
use palla_sync.Auth.{Auth}
use palla_sync.Db.Keeps.{Keeps, keeps_rules}
use palla_sync.Invariant.Appending.{
  append-Keeps, transparency-Keeps, put_object-Keeps, make_receipt-Keeps,
}
use palla_sync.Invariant.Checks.{
  admin_operation-Keeps, object-Keeps, active_device-Keeps, check_envelope-Keeps,
}
use palla_sync.Domain.Records.{earlier_part, current_record, check_record, record_by_digest}
use palla_sync.Store.Append.{store_snapshot_part}
use palla_sync.Retention.{expired}
use palla_sync.Store.Objects.{object_digest}

module _ ⦃x : External⦄ {P : Db → Type 0} (stable : IsStable P) where
  authorize-Keeps : (c : Chain) (auth : Auth) (v : Value) → Keeps P (authorize c auth v)
  unfolding authorize
  authorize-Keeps c auth v = search (keeps_rules, admin_operation-Keeps) depth 16

  append_operation-Keeps :
      (c : Chain) (cfg : RelayConfig) (auth : Auth) (v : Value)
      → Keeps P (append_operation c cfg auth v)
  unfolding append_operation
  append_operation-Keeps c cfg auth v = search (keeps_rules, append-Keeps stable) depth 16

  record_deletion-Keeps :
      (c : Chain) (cfg : RelayConfig) (auth : Auth) (v : Value) (authority : String)
      → Keeps P (record_deletion c cfg auth v authority)
  unfolding record_deletion delete_receipt
  record_deletion-Keeps c cfg auth v authority =
      search
        (keeps_rules, append_operation-Keeps, transparency-Keeps stable, stable.inserts_deletion)
        depth 32

  pub delete-Keeps :
      (c : Chain) (cfg : RelayConfig) (auth : Auth) (v : Value) → Keeps P (delete c cfg auth v)
  unfolding delete
  delete-Keeps c cfg auth v = search (keeps_rules, authorize-Keeps, record_deletion-Keeps) depth 24

  write_guard-Keeps : (cfg : RelayConfig) → Keeps P (write_guard cfg)
  unfolding write_guard
  write_guard-Keeps cfg = record { at = λ w h. ground (arith, h) }

  check_deletion-Keeps : (proof : Option Value) → Keeps P (check_deletion proof)
  check_deletion-Keeps none = search keeps_rules
  check_deletion-Keeps (some v) = search keeps_rules

  item_device-Keeps : (c : Chain) (id : Option String) → Keeps P (item_device c id)
  item_device-Keeps c none = search keeps_rules
  item_device-Keeps c (some id) = search (keeps_rules, active_device-Keeps)

  pub admit_item-Keeps :
      (c : Chain) (cfg : RelayConfig) (auth : Auth) (chain : String)
      → Keeps P (admit_item c cfg auth chain)
  unfolding admit_item deletion_proof
  admit_item-Keeps c cfg auth chain =
      search (keeps_rules, write_guard-Keeps, check_deletion-Keeps, item_device-Keeps)

  upload_envelope-Keeps :
      (c : Chain) (cfg : RelayConfig) (auth : Auth) (chain param : String) (r : Value)
      → Keeps P (upload_envelope c cfg auth chain param r)
  unfolding upload_envelope expired
  upload_envelope-Keeps c cfg auth chain param r =
      search (keeps_rules, object-Keeps, check_envelope-Keeps, append-Keeps stable) depth 32

  upload_repair-Keeps :
      (c : Chain) (cfg : RelayConfig) (chain : String) (v source r : Value)
      → Keeps P (upload_repair c cfg chain v source r)
  unfolding upload_repair object_digest
  upload_repair-Keeps c cfg chain v source r = search (keeps_rules, append-Keeps stable) depth 32

  earlier_part-Keeps : (c : Chain) (v : Value) → Keeps P (earlier_part c v)
  unfolding earlier_part
  earlier_part-Keeps c v = search (keeps_rules, object-Keeps) depth 32

  current_record-Keeps : (c : Chain) (v : Value) (auth : Auth) → Keeps P (current_record c v auth)
  unfolding current_record
  current_record-Keeps c v auth = search (keeps_rules, active_device-Keeps) depth 32

  record_by_digest-Keeps :
      (found : Option String) (c : Chain) (v : Value) (auth : Auth) (snapshot staged : Bool)
      → Keeps P (record_by_digest found c v auth snapshot staged)
  record_by_digest-Keeps none c v auth snapshot staged =
      search (keeps_rules, earlier_part-Keeps, current_record-Keeps)
  record_by_digest-Keeps (some digest) c v auth snapshot staged = search keeps_rules

  check_record-Keeps :
      (c : Chain) (v : Value) (auth : Auth) (snapshot staged : Bool)
      → Keeps P (check_record c v auth snapshot staged)
  unfolding check_record object_digest
  check_record-Keeps c v auth snapshot staged =
      search (keeps_rules, record_by_digest-Keeps) depth 16

  store_snapshot_part-Keeps :
      (c : Chain) (cfg : RelayConfig) (v : Value) → Keeps P (store_snapshot_part c cfg v)
  unfolding store_snapshot_part new_snapshot_part receipt
  store_snapshot_part-Keeps c cfg v =
      search
        (
          keeps_rules,
          put_object-Keeps stable,
          transparency-Keeps stable,
          make_receipt-Keeps stable,
          stable.stores_receipt,
        )
        depth 24

  upload_record-Keeps :
      (c : Chain) (cfg : RelayConfig) (auth : Auth) (chain : String) (snapshot : Bool) (r : Value)
      → Keeps P (upload_record c cfg auth chain snapshot r)
  unfolding upload_record store_item
  upload_record-Keeps c cfg auth chain snapshot r =
      search
        (
          keeps_rules,
          check_record-Keeps,
          stable.reserves_nonce,
          store_snapshot_part-Keeps,
          append-Keeps stable,
        )
        depth 24

  pub upload_item-Keeps :
      (c : Chain) (cfg : RelayConfig) (auth : Auth) (chain : String) (route : UploadRoute)
      (param : String) (v : Value) (index : ℕ) (r : Value)
      → Keeps P (upload_item c cfg auth chain route param v index r)
  unfolding upload_item
  upload_item-Keeps c cfg auth chain envelopes_post param v index r =
      upload_envelope-Keeps c cfg auth chain param r
  upload_item-Keeps c cfg auth chain repair param v index r =
      upload_repair-Keeps c cfg chain v (nth (a v "receipts") index) r
  upload_item-Keeps c cfg auth chain records_post param v index r =
      upload_record-Keeps c cfg auth chain false r
  upload_item-Keeps c cfg auth chain parts_post param v index r =
      upload_record-Keeps c cfg auth chain true r
