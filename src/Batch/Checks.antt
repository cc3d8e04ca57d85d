-- ===== src/Batch/Checks.antt =====
-- What is checked of a batch before its first transaction (the head of `upload` in
-- src/api/batch.rs).
use palla_sync.Prelude.{
  ℕ, String, Bool, if◌then◌else◌, ◌∷◌, [], true, false, ◌&&◌, is_empty, ◌||◌, ltb, length, ◌/=◌,
  not, all, distinct, map, nat_eq, text_eq,
}
use palla_sync.Json.{Value, s, n, a}
use palla_sync.Error.{Result, ok, ◌>>◌, reject_if, invalid_field, device_key_mismatch}
use palla_sync.Crypto.Primitives.{External}
use palla_sync.Config.{RelayConfig, limits}
use palla_sync.Wire.Types.{Schema, fields, array, uuid, is_uuid}
use palla_sync.Auth.{Auth, is_admin, require_admin}
use palla_sync.Batch.Items.{UploadRoute, records_post, envelopes_post, repair, id_key}

abbrev pub list_key : UploadRoute → String
list_key envelopes_post = "envelopes"
list_key route = "records"

abbrev pub upload_fields : UploadRoute → Schema
upload_fields repair = ("source_log_id", uuid) ∷ ("records", array) ∷ ("receipts", array) ∷ []
upload_fields route = (list_key route, array) ∷ []

abbrev pub is_repair : UploadRoute → Bool
is_repair repair = true
is_repair route = false

abbrev is_records_post : UploadRoute → Bool
is_records_post records_post = true
is_records_post route = false

abbrev upload_limit : RelayConfig → UploadRoute → ℕ
upload_limit cfg envelopes_post = 128
upload_limit cfg route = n (limits cfg) "max_records_per_upload"

module _ ⦃x : External⦄ where
  -- What is checked before the first transaction.
  unfoldable pub check_upload : RelayConfig → Auth → UploadRoute → Value → Result (Unit {0})
  check_upload cfg auth route v = do
    if is_repair route then require_admin auth else ok tt
    fields v (upload_fields route) []
    reject_if (is_records_post route && is_admin auth) device_key_mismatch
    let records = a v (list_key route)
    reject_if
        (is_empty records
          || ltb (upload_limit cfg route) (length records)
          || (is_repair route && (length (a v "receipts") /= length records)))
        invalid_field
    reject_if
        (not (all (λ r. is_uuid (s r (id_key route))) records)
          || not (distinct (map (λ r. s r (id_key route)) records)))
        invalid_field
