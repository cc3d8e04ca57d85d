-- ===== src/Mutation/Snapshots.antt =====
-- `snapshot` and `prune` of src/api/mutation.rs: the removal of records behind a compaction.
use palla_sync.Prelude.{
  ℕ, ◌+◌, ◌-◌, Bool, false, ◌&&◌, ◌||◌, Option, none, some, List, [], ◌∷◌, String, ◌==◌, ltb, leb,
  nat_eq, text_eq, pair_eq, option_eq, update_rows,
}
use palla_sync.Json.{Value, num, ◌!◌, str, array, object as json, s, n}
use palla_sync.Error.{compaction_unsafe}
use palla_sync.Crypto.Primitives.{External}
use palla_sync.Crypto.{object_hash}
use palla_sync.Db.{Chain, Kind, kind_eq, ObjectKey, ObjectRow, SeqKey, LogRow, Db}
use palla_sync.Db.Action.{Action, ◌>>=◌, ◌>>◌, pure, lift, fail_if, or_fail, require, modify}
use palla_sync.Config.{RelayConfig}
use palla_sync.Wire.Types.{Schema, fields, object, uuid, int}
use palla_sync.Wire.Validate.{ObjectKind, validate}
use palla_sync.Store.Objects.{object as find_body}
use palla_sync.Store.Outcomes.{outcomes, outcome}
use palla_sync.Store.Append.{append}
use palla_sync.Store.Transparency.{transparency}
use palla_sync.Auth.{Auth, require_admin}
use palla_sync.Domain.{admin_operation, target, is_text}
use palla_sync.Domain.Compactions.{check_compaction}
use palla_sync.Retention.{handoff, drop_entry, drop_body}
use palla_sync.Mutation.{Reply, reply, or_new, repeated}

abbrev prune_fields : Schema
prune_fields = ("compaction_id", uuid) ∷ ("through_seq", int) ∷ ("admin_operation", object) ∷ []

abbrev pruned_members : List String
pruned_members = "compaction_id" ∷ "through_seq" ∷ []

abbrev in_log : Option String → Option ℕ → String → ℕ → Bool
in_log (some log) (some seq) id through = (log == id) && leb seq through
in_log _ _ id through = false

abbrev pub is_pruned_object : Chain → ℕ → ObjectKey → ObjectRow → Bool
is_pruned_object c through k r =
    (k.0 == c.chain_id)
    && (k.1.0 == Kind.sync_record)
    && in_log r.log_id r.relay_seq c.log_id through

abbrev pub is_pruned_entry : Chain → ℕ → SeqKey → LogRow → Bool
is_pruned_entry c through k r = elim r.entry [
  | none ↦ false
  | some e ↦
      (k.0 == c.chain_id)
      && (k.1.0 == c.log_id)
      && leb k.1.1 through
      && is_text (e ! "kind") "record"
]

-- The bodies and entries of records up to a place in the log are removed.
unfoldable pub prune_records : Chain → ℕ → Db → Db
prune_records c through db = record db {
  objects = update_rows (is_pruned_object c through) drop_body db.objects;
  log = update_rows (is_pruned_entry c through) drop_entry db.log;
}

module _ ⦃x : External⦄ where
  unfoldable pub new_snapshot : Chain → RelayConfig → Value → Action Reply
  new_snapshot c cfg v = do
    let comp = v ! "compaction"
    let id = s comp "compaction_id"
    check_compaction c comp []
    e ← append c cfg Kind.compaction comp
    let response = json (
        ("compaction_id", str id)
        ∷ ("receipt", e.entry)
        ∷ ("upload_receipts", array (e.receipt ∷ []))
        ∷ [])
    outcome c.chain_id "snapshot" id v response
    pure (reply 201 response e.chain)

  unfoldable pub snapshot : Chain → RelayConfig → Value → Action Reply
  unfolding new_snapshot
  snapshot c cfg v = do
    lift (fields v (("compaction", object) ∷ []) [])
    lift (validate (v ! "compaction") ObjectKind.compaction)
    known ← outcomes c.chain_id "snapshot" (s (v ! "compaction") "compaction_id") v
    or_new known (repeated c) (new_snapshot c cfg v)

  -- The compaction that a pruning stands on covers what it removes.
  unfoldable pub check_prune : Chain → Value → Action Value
  check_prune c v = do
    admin_operation c (v ! "admin_operation") "prune_log" (target v pruned_members)
    found ← find_body c.chain_id Kind.compaction (s v "compaction_id")
    comp ← require found compaction_unsafe
    let through = n v "through_seq"
    fail_if (ltb through (c.min_available_seq - 1) || ltb (n comp "covered_through_seq") through)
        compaction_unsafe
    or_fail (check_compaction c comp []) compaction_unsafe
    pure comp

  abbrev pruned_chain : Chain → ℕ → Value → Chain
  pruned_chain c through comp = record c {
    min_available_seq = through + 1;
    boundary_compaction_id = some (s comp "compaction_id");
  }

  unfoldable pub new_prune : Chain → RelayConfig → Value → Action Reply
  new_prune c cfg v = do
    comp ← check_prune c v
    let through = n v "through_seq"
    e ← append c cfg Kind.admin (v ! "admin_operation")
    modify (prune_records e.chain through)
    let c' = pruned_chain e.chain through comp
    handoff c' comp through
    t ← transparency c' cfg "prune" (object_hash (target v pruned_members)) none none
    let response = json (
        ("min_available_seq", num t.chain.min_available_seq)
        ∷ ("compaction_id", v ! "compaction_id")
        ∷ [])
    outcome c.chain_id "prune" (s (v ! "admin_operation") "operation_id") v response
    pure (reply 200 response t.chain)

  unfoldable pub prune : Chain → RelayConfig → Auth → Value → Action Reply
  unfolding new_prune
  prune c cfg auth v = do
    lift (require_admin auth)
    lift (fields v prune_fields [])
    known ← outcomes c.chain_id "prune" (s (v ! "admin_operation") "operation_id") v
    or_new known (repeated c) (new_prune c cfg v)
