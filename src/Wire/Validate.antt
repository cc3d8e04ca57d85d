-- ===== src/Wire/Validate.antt =====
-- `validate` of src/api/wire.rs: the fields of each kind of object, and what ties them together.
use palla_sync.Prelude.{
  ℕ, ◌-◌, Bool, true, false, not, ◌&&◌, ◌||◌, Option, none, some, List, [], ◌∷◌, ◌==◌, ◌/=◌, nat_eq,
  text_eq, bool_eq, ltb, leb, text_ltb, if◌then◌else◌, String, length, any, contains, is_empty,
}
use palla_sync.Json.{Value, ◌!◌, is_null, as_str, s, n, a, value_beq}
use palla_sync.Error.{
  Result, ok, throw, ◌>>◌, reject_if, invalid_field, enrollment_certificate_invalid,
  epoch_chain_invalid, member_set_mismatch,
}
use palla_sync.Crypto.Primitives.{External}
use palla_sync.Crypto.{decode, valid_ed_key, valid_x_key}
use palla_sync.Wire.Types.{fields}
use palla_sync.Wire.Schemas.{
  parameters_fields, policy_fields, certificate_fields, device_fields, epoch_fields,
  envelope_fields, record_fields, compaction_fields, admin_fields, request_fields,
  snapshot_part_fields,
}
use palla_sync.Wire.Signed.{signed, signer}

-- The kinds of schema; `sync_record` is "record".
pub data ObjectKind : Type 0 where
  parameters certificate device epoch envelope sync_record compaction admin request : ObjectKind

-- `Option<&str>` compared by `>=`; `none` is below every text.
abbrev not_below : Option String → Option String → Bool
not_below none none = true
not_below none (some u) = false
not_below (some t) none = true
not_below (some t) (some u) = not (text_ltb t u)

-- `windows(2).any(|w| w[0].as_str() >= w[1].as_str())`
unfoldable pub is_unsorted : List Value → Bool
is_unsorted [] = false
is_unsorted (v ∷ []) = false
is_unsorted (v ∷ w ∷ vs) = not_below (as_str v) (as_str w) || is_unsorted (w ∷ vs)

-- `iter().any(|id| others.contains(id))`
unfoldable pub has_common : List Value → List Value → Bool
has_common vs others = any (λ v. any (value_beq v) others) vs

-- The loop that looks for a member whose value the two objects do not share.
unfoldable pub differ_at : List String → Value → Value → Bool
differ_at ks v w = any (λ k. not (value_beq (v ! k) (w ! k))) ks

abbrev lengths_with : List ℕ → Option (List ℕ) → Result (Unit {0})
lengths_with allowed none = throw invalid_field
lengths_with allowed (some b) = reject_if (not (contains allowed (length b))) invalid_field

module _ ⦃x : External⦄ where
  check_parts : List String → List Value → Result (Unit {0})
  check_parts ids [] = ok tt
  check_parts ids (p ∷ ps) =
      let rest = check_parts (s p "record_id" ∷ ids) ps in
      fields p snapshot_part_fields []
      >> (if contains ids (s p "record_id") then throw invalid_field else rest)

  validate_parameters : Value → Result (Unit {0})
  validate_parameters v = do
    signed v parameters_fields
    fields (v ! "policy") policy_fields []
    let w = n (v ! "policy") "epoch_window_ms"
    let t = n (v ! "policy") "scheduled_rotation_ms"
    reject_if
        (not (leb 1 w && leb w 31536000000)
          || ((t /= 0) && not (leb 3600000 t && leb t 31536000000))
          || ((n v "generation" == 0) /= is_null (v ! "previous_parameters_hash"))
          || not (valid_ed_key (s v "admin_public_key")))
        invalid_field

  validate_certificate : Value → Result (Unit {0})
  validate_certificate v = do
    signed v certificate_fields
    signer v
    reject_if
        ((s v "signer_kind" == "device" && is_null (v ! "request_hash"))
          || not (valid_ed_key (s v "device_public_key"))
          || not (valid_x_key (s v "device_kex_public_key")))
        invalid_field

  abbrev certified : List String
  certified =
      "chain_id" ∷ "generation" ∷ "device_id" ∷ "device_public_key" ∷ "device_kex_public_key" ∷ []

  validate_device : Value → Result (Unit {0})
  unfolding validate_certificate differ_at
  validate_device v = do
    signed v device_fields
    validate_certificate (v ! "enrollment")
    lengths_with (1040 ∷ 4112 ∷ []) (decode (s v "encrypted_device_meta") none)
    reject_if (differ_at certified v (v ! "enrollment")) enrollment_certificate_invalid

  unfoldable pub validate_epoch : Value → Result (Unit {0})
  validate_epoch v = do
    signed v epoch_fields
    signer v
    reject_if
        (is_empty (a v "members")
          || ltb 128 (length (a v "members"))
          || ((n v "epoch" == 0) /= is_null (v ! "previous_epoch_hash")))
        epoch_chain_invalid
    reject_if (is_unsorted (a v "members")) member_set_mismatch
    reject_if (is_unsorted (a v "revoked_device_ids")) member_set_mismatch
    reject_if (has_common (a v "members") (a v "revoked_device_ids")) member_set_mismatch

  validate_envelope : Value → Result (Unit {0})
  validate_envelope v = do
    signed v envelope_fields
    signer v
    let is_device = s v "recipient_kind" == "device"
    reject_if
        ((is_device == is_null (v ! "recipient_device_id"))
          || (is_device == is_null (v ! "recipient_key_hash"))
          || (is_device == is_null (v ! "enc"))
          || (is_device /= is_null (v ! "nonce"))
          || (is_device && not (valid_x_key (s v "enc"))))
        invalid_field

  validate_record : Value → Result (Unit {0})
  validate_record v = do
    signed v record_fields
    lengths_with (1040 ∷ 4112 ∷ 16400 ∷ 65552 ∷ 262160 ∷ 1048592 ∷ [])
        (decode (s v "encrypted_payload") none)

  validate_compaction : Value → Result (Unit {0})
  unfolding check_parts
  validate_compaction v = do
    signed v compaction_fields
    reject_if (is_empty (a v "snapshot_parts") || ltb 65536 (length (a v "snapshot_parts")))
        invalid_field
    check_parts [] (a v "snapshot_parts")

  validate_request : Value → Result (Unit {0})
  validate_request v = do
    signed v request_fields
    reject_if
        (leb (n v "expires_at_ms") (n v "created_at_ms")
          || ltb 300000 (n v "expires_at_ms" - n v "created_at_ms")
          || not (valid_ed_key (s v "device_public_key"))
          || not (valid_x_key (s v "device_kex_public_key")))
        invalid_field

  unfoldable pub validate : Value → ObjectKind → Result (Unit {0})
  unfolding validate_parameters validate_certificate validate_device validate_epoch
      validate_envelope validate_record validate_compaction validate_request
  validate v parameters = validate_parameters v
  validate v certificate = validate_certificate v
  validate v device = validate_device v
  validate v epoch = validate_epoch v
  validate v envelope = validate_envelope v
  validate v sync_record = validate_record v
  validate v compaction = validate_compaction v
  validate v admin = signed v admin_fields
  validate v request = validate_request v
