-- ===== src/Tests/Batches.antt =====
-- Concrete runs of the theorems on batches (src/api/batch.rs).
use palla_sync.Deletion.{deletion_proof}
use palla_sync.Config.{write_guard}
use palla_sync.Store.Objects
use palla_sync.Db.Action.{transaction}
use palla_sync.Store.Quota.{sum_rows, transparency_head, used, quota, publish_head, save}
use palla_sync.Wire.Types.{fields, check_type}
use palla_sync.Wire.Artifacts.{
  push_values, find_artifact, push_items, reject_local_artifacts, size, is_artifact,
}
use palla_sync.Wire.Signed.{verify, signed}
use palla_sync.Wire.Validate.{validate}
use palla_sync.Auth.{active_device, registry_status}
use palla_sync.Domain.{bound}
use palla_sync.Domain.Records.{current_record, nonce_taken, reserve_payload_nonce, check_record}
use palla_sync.Decimal.{to_string}
use palla_sync.Store.Hashes.{generation, epoch_hash, parameters_hash, initial_hash, link_hash}
use palla_sync.Store.Transparency.{insert_transparency, transparency, transparency_entry}
use palla_sync.Crypto.{
  decode, hash_bytes, in_alphabet, sign_relay, verify_signed_json, signing_bytes, prime_point,
  verify_signature, object_hash,
}
use palla_sync.Store.Objects.{
  load, object_digest, find_digest, insert_object, object_row, put_by_digest, put_object,
  find_object, taken_by_other, object_id,
}
use palla_sync.Store.Append.{
  enter, place_object, append, insert_log, accept, append_by_digest, make_receipt, store_receipt,
  append_new, log_entry,
}
use palla_sync.Prelude.{
  refl, length, Bool, ◌≡◌, false, ◌∷◌, [], find_row, all, contains, upsert, count_rows, any,
  update_row,
}
use palla_sync.Batch.Items.{records_post, upload_record, upload_item, store_item, admit_item}
use palla_sync.Batch.{
  Progress, upload_all, start, upload_one, attempt, upload_from, go_on, reject_item, must_audit,
  settle_item, run_item,
}
use palla_sync.Batch.Rollback.{IsAudited, has_accepted, upload_one-IsAudited}
use palla_sync.Json.{
  Value, object, str, array, value_beq, ◌!◌, set_member, remove, lookup, get, s, insert, n,
}
use palla_sync.Error.{Result, ok}
use palla_sync.Db.{World}
use palla_sync.Batch.Settles.{Settles}
use palla_sync.Tests.{chain, relay}
use palla_sync.Tests.Payloads.{note, reading, enrolled, owner}

abbrev listed : World
listed = record enrolled { db = record enrolled.db { chains = ("key", chain) ∷ [] } }

abbrev bad : Value
bad = object (("record_id", str "r2") ∷ [])

abbrev request : Value
request = object (("records", array (note "nonce" ∷ bad ∷ [])) ∷ [])

abbrev uploaded : Result Progress × World
uploaded =
    upload_all ⦃x = reading⦄ relay owner "key" records_post "" request 0 (note "nonce" ∷ bad ∷ [])
      start listed

-- A record that is accepted, and one that is not.
both : (q : Progress) × (uploaded ≡ (ok q, uploaded.1))
unfolding upload_all go_on upload_one append append_by_digest append_new object_digest find_digest
    find_row object_id object_hash hash_bytes enter put_object put_by_digest taken_by_other
    insert_object object_row place_object insert_log accept transparency insert_transparency
    transparency_entry make_receipt store_receipt sign_relay verify_signature decode prime_point
    signing_bytes all in_alphabet remove link_hash log_entry set_member insert update_row count_rows
    object s n get lookup ◌!◌ to_string initial_hash check_record current_record
    reserve_payload_nonce nonce_taken bound generation active_device registry_status find_object
    palla_sync.Store.Objects.object validate signed reject_local_artifacts find_artifact is_artifact
    size push_items push_values fields check_type verify verify_signed_json contains any value_beq
    save publish_head quota used sum_rows transparency_head upsert parameters_hash epoch_hash
    upload_from attempt transaction run_item admit_item upload_item upload_record store_item
    settle_item reject_item must_audit load write_guard deletion_proof
both = (_, refl)

one_each : (length both.0.accepted ≡ 1) × (length both.0.rejected ≡ 1)
unfolding both
one_each = (refl, refl)

abbrev round : Result (Bool × Progress) × World
round = upload_one ⦃x = reading⦄ relay owner "key" records_post "" request 0 bad [] start listed

refuses : has_accepted start round.0 ≡ false
unfolding upload_one append append_by_digest append_new object_digest find_digest find_row object_id
    object_hash hash_bytes enter put_object put_by_digest taken_by_other insert_object object_row
    place_object insert_log accept transparency insert_transparency transparency_entry make_receipt
    store_receipt sign_relay verify_signature decode prime_point signing_bytes all in_alphabet
    remove link_hash log_entry set_member insert update_row count_rows object s n get lookup ◌!◌
    to_string initial_hash check_record current_record reserve_payload_nonce nonce_taken bound
    generation active_device registry_status find_object palla_sync.Store.Objects.object validate
    signed reject_local_artifacts find_artifact is_artifact size push_items push_values fields
    check_type verify verify_signed_json contains any value_beq save publish_head quota used
    sum_rows transparency_head upsert parameters_hash epoch_hash upload_from attempt transaction
    run_item admit_item upload_item upload_record store_item settle_item reject_item must_audit load
    write_guard deletion_proof
refuses = refl

upload_one-IsAudited_example : IsAudited listed.db round.1.db
upload_one-IsAudited_example =
    upload_one-IsAudited ⦃x = reading⦄ relay owner "key" records_post "" request 0 bad [] start
      listed refuses
