-- ===== src/Routing/Shown.antt =====
-- What the reading routes show of a chain (`dispatch` of src/api/sync.rs).

use palla_sync.Store.Objects.{object as find_body}
use palla_sync.Store.Append.{receipt as stored_receipt}
use palla_sync.Store.Hashes.{generation, parameters_hash, epoch_hash}
use palla_sync.Json.{◌!◌, Value, null, object, str, n, num, opt_num, s}
use palla_sync.Db.Action.{◌>>=◌, ◌>>◌, Action, now, gets, fail_if, pure, require, lift}
use palla_sync.Db.{kind_eq}
use palla_sync.Prelude.{
  text_eq, pair_eq, nat_eq, Table, Option, Bool, ℕ, String, false, some, none, find_row, not, ltb,
  if◌then◌else◌, ◌==◌, [], nat_eq, text_eq, ◌∷◌, ◌/=◌, select_rows, ◌&&◌,
}
use palla_sync.Db.{Chain, ObjectKey, ObjectRow, ReceiptRow, Kind}
use palla_sync.Crypto.Primitives.{External}
use palla_sync.Read.{allowed, Query, query, number_of}
use palla_sync.Auth.{Auth, is_admin}
use palla_sync.Config.{RelayConfig}
use palla_sync.Store.Quota.{used}
use palla_sync.Retention.{expired}
use palla_sync.Read.Epochs.{epoch_wrapper, entry_at}
use palla_sync.Error.{
  snapshot_not_found, storage_unavailable, snapshot_part_not_found, epoch_not_found,
  envelope_access_denied, invalid_field, history_key_expired, log_id_mismatch, receipt_not_found,
  envelope_not_found,
}
use palla_sync.Wire.Types.{is_uuid}
use palla_sync.Domain.{is_text}

abbrev same_seq : Option ℕ → ℕ → Bool
same_seq none seq = false
same_seq (some k) seq = k == seq

abbrev first_body : Table ObjectKey ObjectRow → Option Value
first_body [] = none
first_body ((k, r) ∷ rows) = r.body

abbrev first_receipt : Table ObjectKey ReceiptRow → Option Value
first_receipt [] = none
first_receipt ((k, r) ∷ rows) = some r.receipt

abbrev or_null : Option Value → Value
or_null none = null
or_null (some v) = v

module _ ⦃x : External⦄ where
  unfoldable pub show_parameters : Chain → RelayConfig → Action Value
  unfolding used
  show_parameters c cfg = do
    time ← now
    bytes ← gets (λ db. used db c.chain_id)
    pure (
        object (
          ("parameters", c.parameters)
          ∷ ("parameters_hash", str (parameters_hash c))
          ∷ ("epoch_hash", str (epoch_hash c))
          ∷ ("log_id", str c.log_id)
          ∷ ("generation", num (generation c))
          ∷ ("head_seq", num c.head_seq)
          ∷ ("head_hash", str c.head_hash)
          ∷ ("server_time_ms", num time)
          ∷ (
            "quota",
            object (("used_bytes", num bytes) ∷ ("max_bytes", opt_num cfg.max_bytes) ∷ []),
          )
          ∷ []))

  abbrev pub notice_or_none : Chain → Option Value → Action Value
  notice_or_none c (some v) = pure v
  notice_or_none c none = now >>= λ time. pure (
      object (
        ("shutdown_at_ms", null)
        ∷ ("migration_origin", null)
        ∷ ("notice_id", str c.notice_id)
        ∷ ("server_time_ms", num time)
        ∷ []))

  unfoldable pub show_notice : Chain → Action Value
  show_notice c = gets (λ db. find_row c.chain_id db.notices) >>= notice_or_none c

  unfoldable pub show_epoch : Chain → String → Action Value
  unfolding epoch_wrapper
  show_epoch c param = do
    found ← find_body c.chain_id Kind.epoch param
    epoch ← require found epoch_not_found
    epoch_wrapper c epoch

  unfoldable pub show_recovery : Chain → Auth → String → Action Value
  unfolding expired
  show_recovery c auth param = do
    fail_if (not (is_admin auth)) envelope_access_denied
    is_expired ← expired c (number_of param)
    fail_if is_expired history_key_expired
    found ← find_body c.chain_id Kind.epoch param
    epoch ← require found epoch_not_found
    envelope ← gets (λ db. first_body (
        select_rows
          (λ k r.
            (k.0 == c.chain_id)
            && (k.1.0 == Kind.envelope)
            && (r.object_hash == s epoch "recovery_envelope_hash"))
          db.objects))
    body ← require envelope envelope_not_found
    pure (object (("envelope", body) ∷ []))

  unfoldable pub show_part : Chain → String → Action Value
  unfolding stored_receipt
  show_part c param = do
    found ← find_body c.chain_id Kind.snapshot_part param
    r ← require found snapshot_part_not_found
    fail_if (ltb (generation c) (n r "generation")) snapshot_part_not_found
    receipt_of ← stored_receipt c.chain_id Kind.snapshot_part param
    pure (object (("record", r) ∷ ("upload_receipt", receipt_of) ∷ []))

  unfoldable pub show_snapshot : Chain → String → Action Value
  show_snapshot c param = do
    found ← find_body c.chain_id Kind.compaction param
    v ← require found snapshot_not_found
    pure (object (("compaction", v) ∷ []))

  unfoldable pub show_published_head : Chain → Action Value
  show_published_head c = do
    found ← gets (λ db. find_row (c.chain_id, (c.transparency_id, c.transparency_index)) db.heads)
    v ← require found storage_unavailable
    pure (object (("head", v) ∷ []))

  abbrev usable : Option String → Option String
  usable none = none
  usable (some id) = if is_uuid id then some id else none

  unfoldable pub show_receipt : Chain → Auth → String → Query → Action Value
  unfolding allowed query
  show_receipt c auth param q = do
    lift (allowed q ("log_id" ∷ []))
    id ← require (usable (query q "log_id")) invalid_field
    fail_if (id /= c.log_id) log_id_mismatch
    let seq = number_of param
    found ← gets (λ db. first_receipt (
        select_rows (λ k r. (k.0 == c.chain_id) && (r.log_id == id) && same_seq r.seq seq)
          db.receipts))
    r ← require found receipt_not_found
    entry ← gets (λ db. or_null (entry_at db c.chain_id (some id) (some seq)))
    fail_if (not (is_admin auth) && is_text (entry ! "object" ! "recipient_kind") "recovery")
        envelope_access_denied
    pure (object (("entry", entry) ∷ ("receipt", r) ∷ []))
