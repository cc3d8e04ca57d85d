-- ===== src/Read/Epochs.antt =====
-- An epoch as it is shown (`epoch_wrapper` of src/api/read.rs).
use palla_sync.Db.Action.{◌>>=◌, Action, gets, require, pure}
use palla_sync.Db.{kind_eq}
use palla_sync.Prelude.{text_eq, pair_eq, nat_eq, Option, String, ℕ, find_row, some, none, ◌∷◌, []}
use palla_sync.Db.{Db, ObjectRow, Chain, Kind}
use palla_sync.Crypto.Primitives.{External}
use palla_sync.Json.{Value, object, str, num, n}
use palla_sync.Crypto.{object_hash}
use palla_sync.Decimal.{to_string}
use palla_sync.Error.{storage_unavailable, repair_proof_required}

-- The entry of the log at a place, unless it was removed.
abbrev pub entry_at : Db → String → Option String → Option ℕ → Option Value
entry_at db c none seq = none
entry_at db c (some log) none = none
entry_at db c (some log) (some seq) = elim (find_row (c, (log, seq)) db.log) [
  | none ↦ none
  | some r ↦ r.entry
]

abbrev or_zero : Option ℕ → ℕ
or_zero none = 0
or_zero (some k) = k

module _ ⦃x : External⦄ where
  -- An entry stands at a sequence number.
  abbrev wrapped : Value → ObjectRow → Value → Value
  wrapped epoch row entry = object (
      ("epoch", epoch)
      ∷ ("epoch_hash", str (object_hash epoch))
      ∷ ("committed_at_ms", num (n entry "committed_at_ms"))
      ∷ ("relay_seq", num (or_zero row.relay_seq))
      ∷ [])

  unfoldable pub epoch_wrapper : Chain → Value → Action Value
  unfolding find_row
  epoch_wrapper c epoch = do
    found ← gets (λ db. find_row (c.chain_id, (Kind.epoch, to_string (n epoch "epoch"))) db.objects)
    row ← require found storage_unavailable
    logged ← gets (λ db. entry_at db c.chain_id row.log_id row.relay_seq)
    entry ← require logged repair_proof_required
    pure (wrapped epoch row entry)
