-- ===== src/Retention.antt =====
-- The removal of old envelopes behind a compaction (src/api/retention.rs).
pub mod Expiry
pub mod Maintenance
use palla_sync.Prelude.{
  ℕ, ◌+◌, ◌-◌, ◌*◌, Bool, true, false, ◌&&◌, ◌||◌, not, Option, none, some, List, [], ◌∷◌, String,
  ◌==◌, ◌/=◌, ltb, leb, nat_eq, text_eq, pair_eq, option_eq, is_some, Table, find_row, add_row,
  update_row, update_rows, select_rows, count_rows, if◌then◌else◌,
}
use palla_sync.Decimal.{to_string}
use palla_sync.Json.{Value, ◌!◌, as_u64, s, n}
use palla_sync.Error.{compaction_unsafe, storage_unavailable}
use palla_sync.Crypto.{codes}
use palla_sync.Db.{Chain, Kind, kind_eq, ObjectKey, ObjectRow, SeqKey, LogRow, HandoffRow, Db}
use palla_sync.Db.Action.{Action, ◌>>=◌, ◌>>◌, pure, gets, require, modify, now}
use palla_sync.Store.Objects.{object}
use palla_sync.Domain.{policy, is_text}

-- CAST(… AS INTEGER) of a text of digits.
abbrev cast_from : ℕ → List ℕ → ℕ
cast_from acc [] = acc
cast_from acc (d ∷ ds) =
    let rest = cast_from (acc * 10 + (d - 48)) ds in if leb 48 d && leb d 57 then rest else acc

abbrev cast_integer : String → ℕ
cast_integer t = cast_from 0 (codes t)

abbrev has_epoch : Value → ℕ → Bool
has_epoch v epoch = as_u64 (v ! "epoch") == some epoch

-- An epoch before `current` whose body is there.
abbrev is_earlier : String → ℕ → ObjectKey → ObjectRow → Bool
is_earlier c current k r =
    (k.0 == c) && (k.1.0 == Kind.epoch) && ltb (cast_integer k.1.1) current && is_some r.body

abbrev exceeds : Option ℕ → ℕ → Bool
exceeds none through = false
exceeds (some seq) through = ltb through seq

abbrev differs : Option String → String → Bool
differs none id = false
differs (some log) id = log /= id

-- An envelope of the epoch that the compaction does not cover.
abbrev is_late : Chain → ℕ → ℕ → ObjectKey → ObjectRow → Bool
is_late c epoch through k r = elim r.body [
  | none ↦ false
  | some v ↦
      (k.0 == c.chain_id)
      && (k.1.0 == Kind.envelope)
      && has_epoch v epoch
      && (exceeds r.relay_seq through || differs r.log_id c.log_id)
]

abbrev bodies : Table ObjectKey ObjectRow → List Value
bodies [] = []
bodies ((k, r) ∷ rows) = elim r.body [ none ↦ bodies rows | some v ↦ v ∷ bodies rows ]

-- The time at which the epoch was committed, by its entry in the log.
abbrev entry_at : Db → String → Option String → Option ℕ → Option Value
entry_at db c none seq = none
entry_at db c (some log) none = none
entry_at db c (some log) (some seq) = elim (find_row (c, (log, seq)) db.log) [
  | none ↦ none
  | some l ↦ l.entry
]

abbrev committed_at : Chain → Value → Db → Option ℕ
committed_at c epoch db =
    elim (find_row (c.chain_id, (Kind.epoch, to_string (n epoch "epoch"))) db.objects) [
      | none ↦ none
      | some o ↦ elim (entry_at db c.chain_id o.log_id o.relay_seq) [
        | none ↦ none
        | some e ↦ as_u64 (e ! "committed_at_ms")
      ]
    ]

-- INSERT OR IGNORE INTO v3_handoffs
unfoldable pub hand_off : Chain → Value → ℕ → ℕ → Db → Db
hand_off c compaction epoch due db =
    if is_some (find_row (c.chain_id, epoch) db.handoffs) then db else record db {
      handoffs =
          add_row (c.chain_id, epoch)
            (record {
              compaction_id = s compaction "compaction_id";
              due_at_ms = due;
              expired = false;
            })
            db.handoffs;
    }

-- The log entries of a chain that carry an envelope of the epoch, before `first`.
abbrev pub carries_envelope : String → ℕ → ℕ → SeqKey → LogRow → Bool
carries_envelope c epoch first k r = elim r.entry [
  | none ↦ false
  | some e ↦
      (k.0 == c)
      && is_text (e ! "kind") "envelope"
      && has_epoch (e ! "object") epoch
      && ltb k.1.1 first
]

abbrev pub is_envelope_of : String → ℕ → ObjectKey → ObjectRow → Bool
is_envelope_of c epoch k r = elim r.body [
  | none ↦ false
  | some v ↦ (k.0 == c) && (k.1.0 == Kind.envelope) && has_epoch v epoch
]

abbrev pub drop_entry : LogRow → LogRow
drop_entry r = record r { entry = none }

abbrev pub drop_body : ObjectRow → ObjectRow
drop_body r = record r { body = none }

abbrev pub set_expired : HandoffRow → HandoffRow
set_expired r = record r { expired = true }

-- What `expire` does for one epoch.
unfoldable pub expire_epoch : Chain → ℕ → Db → Db
expire_epoch c epoch db = record db {
  log = update_rows (carries_envelope c.chain_id epoch c.min_available_seq) drop_entry db.log;
  objects = update_rows (is_envelope_of c.chain_id epoch) drop_body db.objects;
  handoffs = update_row (c.chain_id, epoch) set_expired db.handoffs;
}

unfoldable pub expire_epochs : Chain → List ℕ → Db → Db
unfolding expire_epoch
expire_epochs c [] db = db
expire_epochs c (e ∷ es) db = expire_epochs c es (expire_epoch c e db)

abbrev pub row_epochs : Table (String × ℕ) HandoffRow → List ℕ
row_epochs [] = []
row_epochs ((k, r) ∷ rows) = k.1 ∷ row_epochs rows

unfoldable pub due_epochs : Chain → ℕ → Db → List ℕ
due_epochs c time db =
    row_epochs (
      select_rows (λ k r. (k.0 == c.chain_id) && leb r.due_at_ms time && not r.expired) db.handoffs)

unfoldable pub expire : Chain → Action (Unit {0})
expire c = do time ← now; epochs ← gets (due_epochs c time); modify (expire_epochs c epochs)

unfoldable pub due_at : Chain → ℕ → Action ℕ
due_at c committed =
    if is_text (policy c "epoch_retention") "immediate"
    then now
    else pure (committed + n (c.parameters ! "policy") "epoch_window_ms")

unfoldable pub hand_off_epoch : Chain → Value → Value → Action (Unit {0})
hand_off_epoch c compaction epoch = do
  found ← object c.chain_id Kind.epoch (to_string (n epoch "epoch" + 1))
  successor ← require found compaction_unsafe
  time ← gets (committed_at c successor)
  committed ← require time storage_unavailable
  due ← due_at c committed
  modify (hand_off c compaction (n epoch "epoch") due)

-- An epoch is handed off unless one of its envelopes is late.
unfoldable pub hand_off_covered : Chain → Value → ℕ → Value → Action (Unit {0})
unfolding hand_off_epoch
hand_off_covered c compaction through epoch = do
  late ← gets (λ db. count_rows (is_late c (n epoch "epoch") through) db.objects)
  if late /= 0 then pure tt else hand_off_epoch c compaction epoch

-- The loop over the earlier epochs.
unfoldable pub hand_off_all : Chain → Value → ℕ → List Value → Action (Unit {0})
hand_off_all c compaction through [] = pure tt
hand_off_all c compaction through (epoch ∷ epochs) =
    hand_off_covered c compaction through epoch >> hand_off_all c compaction through epochs

-- `handoff`
unfoldable pub handoff : Chain → Value → ℕ → Action (Unit {0})
handoff c compaction through =
    if is_text (policy c "epoch_retention") "retain"
    then pure tt
    else (gets (λ db. bodies (select_rows (is_earlier c.chain_id (n c.epoch "epoch")) db.objects))
        >>= λ epochs. (hand_off_all c compaction through epochs >> expire c))

unfoldable pub expired : Chain → ℕ → Action Bool
expired c epoch = gets (λ db.
    ltb 0 (count_rows (λ k r. (k.0 == c.chain_id) && (k.1 == epoch) && r.expired) db.handoffs))
