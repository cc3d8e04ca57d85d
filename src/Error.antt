-- ===== src/Error.antt =====
-- The protocol errors (src/api/error.rs): the closed catalogue of codes, each with its HTTP status
-- and whether a client may retry, and the response that carries one.
pub mod Retry
use palla_sync.Prelude.{
  ℕ, ◌+◌, ◌-◌, ◌/◌, Bool, true, false, Option, none, some, [], ◌∷◌, ◌==◌, ltb, leb, if◌then◌else◌,
  String,
}
use palla_sync.Json.{Value, num, str, bool, object, lookup, as_u64}

-- The match arms of `catalogue`; a code is one of these strings, so its last arm is out of reach.
pub data Code : Type 0 where
  invalid_json invalid_field cursor_invalid filter_not_allowed token_required : Code
  token_not_yet_valid token_expired token_replayed token_ttl_too_long token_signature_invalid : Code
  token_binding_mismatch admin_required device_pending_keys device_unknown : Code
  enrollment_not_allowed rotation_not_allowed device_revoked device_key_mismatch : Code
  envelope_access_denied endpoint_not_found chain_not_found device_not_found epoch_not_found : Code
  offer_not_found envelope_not_found snapshot_part_not_found snapshot_not_found : Code
  receipt_not_found method_not_allowed request_timeout chain_exists record_id_conflict : Code
  device_id_conflict request_id_conflict envelope_id_conflict operation_id_conflict : Code
  import_conflict epoch_stale cas_mismatch generation_mismatch member_set_mismatch : Code
  recovery_envelope_required history_key_expired cursor_expired log_id_mismatch log_pruned : Code
  snapshot_incomplete compaction_unsafe repair_proof_required transparency_id_mismatch : Code
  transparency_range_unavailable chain_deleted payload_too_large device_limit_reached : Code
  unsupported_media_type object_signature_invalid enrollment_certificate_invalid : Code
  epoch_chain_invalid rate_limited internal_error bad_gateway relay_unavailable : Code
  relay_shutting_down gateway_timeout quota_exceeded storage_unavailable : Code

-- The string that the code is written as.
pub code_name : Code → String
code_name invalid_json = "INVALID_JSON"
code_name invalid_field = "INVALID_FIELD"
code_name cursor_invalid = "CURSOR_INVALID"
code_name filter_not_allowed = "FILTER_NOT_ALLOWED"
code_name token_required = "TOKEN_REQUIRED"
code_name token_not_yet_valid = "TOKEN_NOT_YET_VALID"
code_name token_expired = "TOKEN_EXPIRED"
code_name token_replayed = "TOKEN_REPLAYED"
code_name token_ttl_too_long = "TOKEN_TTL_TOO_LONG"
code_name token_signature_invalid = "TOKEN_SIGNATURE_INVALID"
code_name token_binding_mismatch = "TOKEN_BINDING_MISMATCH"
code_name admin_required = "ADMIN_REQUIRED"
code_name device_pending_keys = "DEVICE_PENDING_KEYS"
code_name device_unknown = "DEVICE_UNKNOWN"
code_name enrollment_not_allowed = "ENROLLMENT_NOT_ALLOWED"
code_name rotation_not_allowed = "ROTATION_NOT_ALLOWED"
code_name device_revoked = "DEVICE_REVOKED"
code_name device_key_mismatch = "DEVICE_KEY_MISMATCH"
code_name envelope_access_denied = "ENVELOPE_ACCESS_DENIED"
code_name endpoint_not_found = "ENDPOINT_NOT_FOUND"
code_name chain_not_found = "CHAIN_NOT_FOUND"
code_name device_not_found = "DEVICE_NOT_FOUND"
code_name epoch_not_found = "EPOCH_NOT_FOUND"
code_name offer_not_found = "OFFER_NOT_FOUND"
code_name envelope_not_found = "ENVELOPE_NOT_FOUND"
code_name snapshot_part_not_found = "SNAPSHOT_PART_NOT_FOUND"
code_name snapshot_not_found = "SNAPSHOT_NOT_FOUND"
code_name receipt_not_found = "RECEIPT_NOT_FOUND"
code_name method_not_allowed = "METHOD_NOT_ALLOWED"
code_name request_timeout = "REQUEST_TIMEOUT"
code_name chain_exists = "CHAIN_EXISTS"
code_name record_id_conflict = "RECORD_ID_CONFLICT"
code_name device_id_conflict = "DEVICE_ID_CONFLICT"
code_name request_id_conflict = "REQUEST_ID_CONFLICT"
code_name envelope_id_conflict = "ENVELOPE_ID_CONFLICT"
code_name operation_id_conflict = "OPERATION_ID_CONFLICT"
code_name import_conflict = "IMPORT_CONFLICT"
code_name epoch_stale = "EPOCH_STALE"
code_name cas_mismatch = "CAS_MISMATCH"
code_name generation_mismatch = "GENERATION_MISMATCH"
code_name member_set_mismatch = "MEMBER_SET_MISMATCH"
code_name recovery_envelope_required = "RECOVERY_ENVELOPE_REQUIRED"
code_name history_key_expired = "HISTORY_KEY_EXPIRED"
code_name cursor_expired = "CURSOR_EXPIRED"
code_name log_id_mismatch = "LOG_ID_MISMATCH"
code_name log_pruned = "LOG_PRUNED"
code_name snapshot_incomplete = "SNAPSHOT_INCOMPLETE"
code_name compaction_unsafe = "COMPACTION_UNSAFE"
code_name repair_proof_required = "REPAIR_PROOF_REQUIRED"
code_name transparency_id_mismatch = "TRANSPARENCY_ID_MISMATCH"
code_name transparency_range_unavailable = "TRANSPARENCY_RANGE_UNAVAILABLE"
code_name chain_deleted = "CHAIN_DELETED"
code_name payload_too_large = "PAYLOAD_TOO_LARGE"
code_name device_limit_reached = "DEVICE_LIMIT_REACHED"
code_name unsupported_media_type = "UNSUPPORTED_MEDIA_TYPE"
code_name object_signature_invalid = "OBJECT_SIGNATURE_INVALID"
code_name enrollment_certificate_invalid = "ENROLLMENT_CERTIFICATE_INVALID"
code_name epoch_chain_invalid = "EPOCH_CHAIN_INVALID"
code_name rate_limited = "RATE_LIMITED"
code_name internal_error = "INTERNAL_ERROR"
code_name bad_gateway = "BAD_GATEWAY"
code_name relay_unavailable = "RELAY_UNAVAILABLE"
code_name relay_shutting_down = "RELAY_SHUTTING_DOWN"
code_name gateway_timeout = "GATEWAY_TIMEOUT"
code_name quota_exceeded = "QUOTA_EXCEEDED"
code_name storage_unavailable = "STORAGE_UNAVAILABLE"

unfoldable pub catalogue : Code → ℕ × Bool
catalogue invalid_json = (400, false)
catalogue invalid_field = (400, false)
catalogue cursor_invalid = (400, false)
catalogue filter_not_allowed = (400, false)
catalogue token_required = (401, true)
catalogue token_not_yet_valid = (401, true)
catalogue token_expired = (401, true)
catalogue token_replayed = (401, true)
catalogue token_ttl_too_long = (401, false)
catalogue token_signature_invalid = (401, false)
catalogue token_binding_mismatch = (401, false)
catalogue admin_required = (403, true)
catalogue device_pending_keys = (403, true)
catalogue device_unknown = (403, true)
catalogue enrollment_not_allowed = (403, true)
catalogue rotation_not_allowed = (403, true)
catalogue device_revoked = (403, false)
catalogue device_key_mismatch = (403, false)
catalogue envelope_access_denied = (403, false)
catalogue endpoint_not_found = (404, false)
catalogue chain_not_found = (404, true)
catalogue device_not_found = (404, true)
catalogue epoch_not_found = (404, true)
catalogue offer_not_found = (404, true)
catalogue envelope_not_found = (404, true)
catalogue snapshot_part_not_found = (404, true)
catalogue snapshot_not_found = (404, true)
catalogue receipt_not_found = (404, true)
catalogue method_not_allowed = (405, false)
catalogue request_timeout = (408, true)
catalogue chain_exists = (409, false)
catalogue record_id_conflict = (409, false)
catalogue device_id_conflict = (409, false)
catalogue request_id_conflict = (409, false)
catalogue envelope_id_conflict = (409, false)
catalogue operation_id_conflict = (409, false)
catalogue import_conflict = (409, false)
catalogue epoch_stale = (409, true)
catalogue cas_mismatch = (409, true)
catalogue generation_mismatch = (409, true)
catalogue member_set_mismatch = (409, true)
catalogue recovery_envelope_required = (409, true)
catalogue history_key_expired = (409, true)
catalogue cursor_expired = (409, true)
catalogue log_id_mismatch = (409, true)
catalogue log_pruned = (409, true)
catalogue snapshot_incomplete = (409, true)
catalogue compaction_unsafe = (409, true)
catalogue repair_proof_required = (409, true)
catalogue transparency_id_mismatch = (409, true)
catalogue transparency_range_unavailable = (409, true)
catalogue chain_deleted = (410, false)
catalogue payload_too_large = (413, true)
catalogue device_limit_reached = (413, true)
catalogue unsupported_media_type = (415, false)
catalogue object_signature_invalid = (422, false)
catalogue enrollment_certificate_invalid = (422, false)
catalogue epoch_chain_invalid = (422, false)
catalogue rate_limited = (429, true)
catalogue internal_error = (500, true)
catalogue bad_gateway = (502, true)
catalogue relay_unavailable = (503, true)
catalogue relay_shutting_down = (503, true)
catalogue gateway_timeout = (504, true)
catalogue quota_exceeded = (507, true)
catalogue storage_unavailable = (507, true)

pub record ApiError : Type 0 where
  pub code : Code
  pub context : Option Value

pub data Result {ℓ} (A : Type ℓ) : Type ℓ where
  ok : A → Result A
  err : ApiError → Result A

-- `err(code)`
abbrev pub failed : Code → ApiError
failed c = record { code = c; context = none }

abbrev pub throw {ℓ} : {A : Type ℓ} → Code → Result A
throw c = err (failed c)

abbrev pub with_context : ApiError → Value → ApiError
with_context e v = record e { context = some v }

unfoldable pub status : ApiError → ℕ
unfolding catalogue
status e = (catalogue e.code).0

unfoldable pub retryable : ApiError → Bool
unfolding catalogue
retryable e = (catalogue e.code).1

-- `?`: the rest of a function runs on the value, and an error is returned at once.
module _ {ℓ κ} {A : Type ℓ} {B : Type κ} where
  infixl 5 ◌>>=◌
  abbrev pub ◌>>=◌ : Result A → (A → Result B) → Result B
  err e >>= rest = err e
  ok a >>= rest = rest a

module _ {ℓ} {A : Type ℓ} where
  infixl 5 ◌>>◌
  abbrev pub ◌>>◌ : Result (Unit {0}) → Result A → Result A
  checked >> rest = checked >>= λ _. rest

-- `if bad { return Err(err(code)) }`
abbrev pub reject_if : Bool → Code → Result (Unit {0})
reject_if b c = if b then throw c else ok tt

abbrev pub ok_or {ℓ} : {A : Type ℓ} → Option A → Code → Result A
ok_or none c = throw c
ok_or (some a) c = ok a

-- `map_err(|_| err(code))`
abbrev pub or_code {ℓ} : {A : Type ℓ} → Result A → Code → Result A
or_code (ok a) c = ok a
or_code (err e) c = throw c
