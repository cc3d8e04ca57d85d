-- ===== src/Domain/Envelopes.antt =====
-- `envelope` of src/api/domain.rs.
use palla_sync.Prelude.{
  not, Option, none, some, List, [], ◌∷◌, String, ◌==◌, ◌/=◌, nat_eq, text_eq, if◌then◌else◌,
}
use palla_sync.Json.{Value, ◌!◌, str, s, n, value_beq}
use palla_sync.Error.{
  Result, ok, throw, epoch_chain_invalid, envelope_access_denied, storage_unavailable,
}
use palla_sync.Crypto.Primitives.{External}
use palla_sync.Crypto.{decode, hash_bytes}
use palla_sync.Db.{Chain, device, Status, revoked}
use palla_sync.Db.Action.{Action, ◌>>=◌, ◌>>◌, pure, lift, fail_if, require}
use palla_sync.Wire.Signed.{verify}
use palla_sync.Wire.Validate.{ObjectKind, validate, differ_at}
use palla_sync.Store.Hashes.{generation, unwrap_bytes}
use palla_sync.Store.Objects.{object}
use palla_sync.Auth.{signing_key, registry_status}
use palla_sync.Domain.{signing_context, find_staged}

abbrev epoch_members : List String
epoch_members =
    "chain_id" ∷ "generation" ∷ "epoch" ∷ "previous_epoch_hash" ∷ "epoch_commitment" ∷ []

-- `fetch_one` finds no row, or the device was revoked.
abbrev not_revoked : Option Status → Result (Unit {0})
not_revoked none = throw storage_unavailable
not_revoked (some revoked) = throw envelope_access_denied
not_revoked (some _) = ok tt

module _ ⦃x : External⦄ where
  unfoldable pub envelope_key : Chain → Value → List Value → Action String
  envelope_key c e staged =
      if s e "signer_kind" == "admin"
      then pure (s c.parameters "admin_public_key")
      else elim (find_staged staged (s e "signer_device_id")) [
        | some d ↦ pure (s d "device_public_key")
        | none ↦ signing_key c e
      ]

  unfoldable pub known_recipient : Chain → String → Action Value
  known_recipient c id = do
    found ← object c.chain_id device id
    d ← require found envelope_access_denied
    state ← registry_status c.chain_id id
    lift (not_revoked state)
    fail_if (n d "generation" /= generation c) envelope_access_denied
    pure d

  -- The device that the envelope is for: a staged one, or one that is not revoked.
  unfoldable pub recipient : Chain → String → List Value → Action Value
  unfolding known_recipient
  recipient c id staged = elim (find_staged staged id) [
    | some d ↦ pure d
    | none ↦ known_recipient c id
  ]

  abbrev kex_hash : Value → String
  kex_hash d = hash_bytes (unwrap_bytes (decode (s d "device_kex_public_key") (some 32)))

  unfoldable pub check_recipient : Chain → Value → List Value → Action (Unit {0})
  unfolding recipient
  check_recipient c e staged =
      if s e "recipient_kind" == "device"
      then (recipient c (s e "recipient_device_id") staged >>= λ d.
          fail_if (not (value_beq (e ! "recipient_key_hash") (str (kex_hash d))))
            envelope_access_denied)
      else pure tt

  unfoldable pub check_envelope : Chain → Value → Value → List Value → Action (Unit {0})
  unfolding envelope_key check_recipient
  check_envelope c e epoch staged = do
    lift (validate e ObjectKind.envelope)
    fail_if (differ_at epoch_members e epoch) epoch_chain_invalid
    key ← envelope_key c e staged
    lift (verify e key (signing_context "PALLASYNC-EPOCH-ENVELOPE-v3"))
    check_recipient c e staged
