-- ===== src/Wire/Schemas.antt =====
-- The fields of each kind of signed object, the tables of `validate` in src/api/wire.rs.
use palla_sync.Prelude.{[], ◌∷◌}
use palla_sync.Wire.Types.{
  Schema, optional, each, string, uuid, u32, int, boolean, object, array, version_3, bytes, one_of,
}

abbrev pub parameters_fields : Schema
parameters_fields =
    ("version", version_3)
    ∷ ("chain_id", bytes 32)
    ∷ ("admin_public_key", bytes 32)
    ∷ ("generation", u32)
    ∷ ("previous_parameters_hash", optional (bytes 32))
    ∷ ("policy", object)
    ∷ []

abbrev pub policy_fields : Schema
policy_fields =
    ("metadata_profile", one_of ("private" ∷ "queryable" ∷ []))
    ∷ ("allow_device_chain_delete", boolean)
    ∷ ("allow_peer_enrollment", boolean)
    ∷ ("allow_device_rotation", boolean)
    ∷ ("epoch_retention", one_of ("retain" ∷ "windowed" ∷ "immediate" ∷ []))
    ∷ ("epoch_window_ms", int)
    ∷ ("scheduled_rotation_ms", int)
    ∷ []

abbrev pub certificate_fields : Schema
certificate_fields =
    ("chain_id", bytes 32)
    ∷ ("generation", u32)
    ∷ ("certificate_id", uuid)
    ∷ ("device_id", uuid)
    ∷ ("device_public_key", bytes 32)
    ∷ ("device_kex_public_key", bytes 32)
    ∷ ("signer_kind", one_of ("admin" ∷ "device" ∷ []))
    ∷ ("signer_device_id", optional uuid)
    ∷ ("request_hash", optional (bytes 32))
    ∷ ("approved_at_ms", int)
    ∷ []

abbrev pub device_fields : Schema
device_fields =
    ("version", version_3)
    ∷ ("chain_id", bytes 32)
    ∷ ("generation", u32)
    ∷ ("device_id", uuid)
    ∷ ("device_public_key", bytes 32)
    ∷ ("device_kex_public_key", bytes 32)
    ∷ ("meta_epoch", u32)
    ∷ ("meta_nonce", bytes 24)
    ∷ ("encrypted_device_meta", string)
    ∷ ("enrollment", object)
    ∷ []

abbrev pub epoch_fields : Schema
epoch_fields =
    ("chain_id", bytes 32)
    ∷ ("generation", u32)
    ∷ ("epoch", u32)
    ∷ ("previous_epoch_hash", optional (bytes 32))
    ∷ ("epoch_commitment", bytes 32)
    ∷ (
      "reason",
      one_of (
          "genesis" ∷ "scheduled" ∷ "manual" ∷ "device_revocation" ∷ "key_rotation" ∷ "reseed"
          ∷ "emergency" ∷ []),
    )
    ∷ ("signer_kind", one_of ("admin" ∷ "device" ∷ []))
    ∷ ("signer_device_id", optional uuid)
    ∷ ("members", each uuid)
    ∷ ("revoked_device_ids", each uuid)
    ∷ ("recovery_envelope_hash", bytes 32)
    ∷ []

abbrev pub envelope_fields : Schema
envelope_fields =
    ("envelope_id", uuid)
    ∷ ("chain_id", bytes 32)
    ∷ ("generation", u32)
    ∷ ("epoch", u32)
    ∷ ("previous_epoch_hash", optional (bytes 32))
    ∷ ("epoch_commitment", bytes 32)
    ∷ ("recipient_kind", one_of ("device" ∷ "recovery" ∷ []))
    ∷ ("recipient_device_id", optional uuid)
    ∷ ("recipient_key_hash", optional (bytes 32))
    ∷ ("signer_kind", one_of ("admin" ∷ "device" ∷ []))
    ∷ ("signer_device_id", optional uuid)
    ∷ ("enc", optional (bytes 32))
    ∷ ("nonce", optional (bytes 24))
    ∷ ("ciphertext", bytes 48)
    ∷ []

abbrev pub record_fields : Schema
record_fields =
    ("version", version_3)
    ∷ ("chain_id", bytes 32)
    ∷ ("generation", u32)
    ∷ ("record_id", uuid)
    ∷ ("device_id", uuid)
    ∷ ("epoch", u32)
    ∷ ("collection_tag", optional (bytes 16))
    ∷ ("payload_nonce", bytes 24)
    ∷ ("encrypted_payload", string)
    ∷ []

abbrev pub compaction_fields : Schema
compaction_fields =
    ("compaction_id", uuid)
    ∷ ("chain_id", bytes 32)
    ∷ ("generation", u32)
    ∷ ("device_id", uuid)
    ∷ ("log_id", uuid)
    ∷ ("covered_through_seq", int)
    ∷ ("covered_log_hash", bytes 32)
    ∷ ("epoch_hash", bytes 32)
    ∷ ("snapshot_parts", array)
    ∷ ("state_sha256", bytes 32)
    ∷ []

abbrev pub admin_fields : Schema
admin_fields =
    ("operation_id", uuid)
    ∷ ("chain_id", bytes 32)
    ∷ ("generation", u32)
    ∷ (
      "action",
      one_of
          ("approve_enrollment" ∷ "revoke_device" ∷ "reseed" ∷ "delete_chain" ∷ "prune_log" ∷ []),
    )
    ∷ ("expected_parameters_hash", bytes 32)
    ∷ ("expected_epoch_hash", bytes 32)
    ∷ ("target_hash", bytes 32)
    ∷ ("created_at_ms", int)
    ∷ []

abbrev pub request_fields : Schema
request_fields =
    ("request_id", uuid)
    ∷ ("chain_id", bytes 32)
    ∷ ("generation", u32)
    ∷ ("device_id", uuid)
    ∷ ("device_public_key", bytes 32)
    ∷ ("device_kex_public_key", bytes 32)
    ∷ ("offer_nonce", bytes 32)
    ∷ ("created_at_ms", int)
    ∷ ("expires_at_ms", int)
    ∷ []

abbrev pub snapshot_part_fields : Schema
snapshot_part_fields = ("record_id", uuid) ∷ ("record_hash", bytes 32) ∷ []
