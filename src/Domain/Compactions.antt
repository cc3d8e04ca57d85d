-- ===== src/Domain/Compactions.antt =====
-- `compaction` of src/api/domain.rs.
use palla_sync.Prelude.{
  ℕ, ◌||◌, none, List, [], ◌∷◌, String, ◌==◌, ◌/=◌, ltb, nat_eq, text_eq, pair_eq, find_row,
  if◌then◌else◌,
}
use palla_sync.Json.{Value, s, n, a}
use palla_sync.Error.{
  log_id_mismatch, epoch_stale, compaction_unsafe, snapshot_incomplete, invalid_field,
}
use palla_sync.Crypto.Primitives.{External}
use palla_sync.Crypto.{object_hash}
use palla_sync.Db.{Chain, Kind}
use palla_sync.Db.Action.{Action, ◌>>=◌, ◌>>◌, pure, lift, gets, require, fail_if}
use palla_sync.Wire.Signed.{verify}
use palla_sync.Wire.Validate.{ObjectKind, validate}
use palla_sync.Store.Hashes.{generation, epoch_hash, initial_hash, log_context}
use palla_sync.Store.Objects.{object}
use palla_sync.Domain.{bound, signing_context, staged_or_active}
use palla_sync.Domain.Records.{wrong_tag, record_signing}

module _ ⦃x : External⦄ where
  -- The hash of the log up to a sequence number.
  unfoldable pub covered_hash : Chain → ℕ → Action String
  covered_hash c covered =
      if covered == 0
      then pure (initial_hash log_context c.chain_id c.log_id none)
      else (gets (λ db. find_row (c.chain_id, (c.log_id, covered)) db.log) >>= λ row.
          (require row compaction_unsafe >>= λ l. pure l.head_hash))

  -- A part is in the store as it is named, of the chain's generation and epoch, and signed.
  unfoldable pub check_part : Chain → List Value → Value → Action (Unit {0})
  check_part c staged p = do
    found ← object c.chain_id Kind.snapshot_part (s p "record_id")
    part ← require found snapshot_incomplete
    fail_if
        (object_hash part /= s p "record_hash"
          || n part "generation" /= generation c
          || n part "epoch" /= n c.epoch "epoch")
        snapshot_incomplete
    key ← staged_or_active c staged (s part "device_id")
    lift (verify part key record_signing)
    fail_if (wrong_tag c.parameters part) invalid_field

  unfoldable pub check_parts : Chain → List Value → List Value → Action (Unit {0})
  unfolding check_part
  check_parts c staged [] = pure tt
  check_parts c staged (p ∷ ps) = check_part c staged p >> check_parts c staged ps

  unfoldable pub check_compaction : Chain → Value → List Value → Action (Unit {0})
  check_compaction c v staged = do
    lift (validate v ObjectKind.compaction)
    lift (bound v c)
    fail_if (s v "log_id" /= c.log_id) log_id_mismatch
    fail_if (s v "epoch_hash" /= epoch_hash c) epoch_stale
    key ← staged_or_active c staged (s v "device_id")
    lift (verify v key (signing_context "PALLASYNC-COMPACTION-v3"))
    hash ← covered_hash c (n v "covered_through_seq")
    fail_if (ltb c.head_seq (n v "covered_through_seq") || s v "covered_log_hash" /= hash)
        compaction_unsafe
    check_parts c staged (a v "snapshot_parts")
