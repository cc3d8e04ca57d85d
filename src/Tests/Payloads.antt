-- ===== src/Tests/Payloads.antt =====
-- A concrete run of the theorem on payload nonces (src/api/domain.rs).
use palla_sync.Prelude.{
  true, false, none, some, [], ◌∷◌, String, ◌≡◌, refl, ◌==◌, nat_eq, text_eq, length, if◌then◌else◌,
  find_row, all, any, contains,
}
use palla_sync.Json.{Value, num, str, object, s, n, ◌!◌, lookup, get, remove, insert, value_beq}
use palla_sync.Error.{ok}
use palla_sync.Crypto.Primitives.{External}
use palla_sync.Db.{Kind, World, active}
use palla_sync.Auth.{Auth, active_device, registry_status}
use palla_sync.Domain.Records.{
  payload_key, reserve_payload_nonce, nonce_taken, current_record, check_record,
}
use palla_sync.Domain.Records.Nonces.{reserve_payload_nonce-check_record}
use palla_sync.Decimal.{to_string}
use palla_sync.Domain.{bound}
use palla_sync.Store.Hashes.{generation}
use palla_sync.Store.Objects
use palla_sync.Store.Objects.{find_object, find_digest, object_digest}
use palla_sync.Wire.Validate.{validate}
use palla_sync.Wire.Signed.{signed, verify}
use palla_sync.Wire.Artifacts.{
  reject_local_artifacts, find_artifact, is_artifact, size, push_items, push_values,
}
use palla_sync.Wire.Types.{fields, check_type}
use palla_sync.Crypto.{
  decode, in_alphabet, verify_signed_json, verify_signature, prime_point, signing_bytes,
}
use palla_sync.Tests.{sample, chain, world, zeros}

-- A payload of 1040 bytes and a nonce of 24 beside the sample's texts.
abbrev pub reading : External
reading = record sample {
  encode = λ b.
      if length b == 1040
      then "payload"
      else if length b == 24
      then "payload_nonce"
      else sample.encode b;
  decode_base64 = λ t.
      if t == "payload"
      then some (zeros 1040)
      else if t == "payload_nonce"
      then some (zeros 24)
      else sample.decode_base64 t;
  parse_uuid = λ t. some (record { version = 4; is_rfc4122 = true; bytes = []; display = t });
}

abbrev pub note : String → Value
note tag = object (
    ("version", str "3.0")
    ∷ ("chain_id", str "key")
    ∷ ("generation", num 0)
    ∷ ("record_id", str "r1")
    ∷ ("device_id", str "d1")
    ∷ ("epoch", num 0)
    ∷ ("collection_tag", str tag)
    ∷ ("payload_nonce", str "payload_nonce")
    ∷ ("encrypted_payload", str "payload")
    ∷ ("signature", str "sig")
    ∷ [])

abbrev pub enrolled : World
enrolled = record world {
  db = record world.db {
    objects =
        (
          ("key", (Kind.device, "d1")),
          record {
            object_hash = "key";
            body = some (object (("generation", num 0) ∷ ("device_public_key", str "key") ∷ []));
            log_id = none;
            relay_seq = none;
          },
        )
        ∷ [];
    registry =
        (
          ("key", "d1"),
          record { generation = 0; status = active; enrolled_seq = 1; revoked_seq = none },
        )
        ∷ [];
  };
}

abbrev pub owner : Auth
owner = record { token = object []; device_id = some "d1" }

abbrev reserved : World
reserved = (reserve_payload_nonce chain (note "other") enrolled).1

free : nonce_taken chain (note "other") enrolled.db ≡ false
unfolding nonce_taken find_row s n ◌!◌ lookup get object
free = refl

same_key : payload_key chain (note "nonce") ≡ payload_key chain (note "other")
unfolding s n ◌!◌ lookup get object
same_key = refl

abbrev checked : World
checked = (check_record ⦃x = reading⦄ chain (note "nonce") owner false false reserved).1

passes :
    check_record ⦃x = reading⦄ chain (note "nonce") owner false false reserved ≡ (ok false, checked)
unfolding check_record current_record reserve_payload_nonce nonce_taken bound generation
    active_device registry_status find_object find_digest palla_sync.Store.Objects.object
    object_digest validate signed reject_local_artifacts find_artifact is_artifact size push_items
    push_values fields check_type decode in_alphabet all verify verify_signed_json verify_signature
    prime_point signing_bytes remove insert object s n ◌!◌ lookup get find_row contains any
    to_string value_beq
passes = refl

reserve_payload_nonce-check_record_example :
    s (note "nonce") "record_id" ≡ s (note "other") "record_id"
reserve_payload_nonce-check_record_example =
    reserve_payload_nonce-check_record ⦃x = reading⦄ chain (note "other") (note "nonce") owner false
      enrolled reserved checked free same_key refl passes
