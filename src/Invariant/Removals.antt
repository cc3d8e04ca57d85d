-- ===== src/Invariant/Removals.antt =====
-- `snapshot` and `prune` of src/api/mutation.rs and `handoff` and `expire` of src/api/retention.rs
-- keep an invariant that each write keeps.
use palla_sync.Prelude.{ℕ, List, [], ◌∷◌, pair_eq, nat_eq, text_eq}
use palla_sync.Json.{Value}
use palla_sync.Crypto.Primitives.{External}
use palla_sync.Db.{kind_eq, Chain, Db}
use palla_sync.Db.Keeps.{Keeps, Keeps-bind, Keeps-modify, keeps_rules}
use palla_sync.Config.{RelayConfig}
use palla_sync.Auth.{Auth}
use palla_sync.Invariant.{IsStable}
use palla_sync.Retention.{
  expire_epochs, expire, due_at, handoff, hand_off_all, hand_off_epoch, hand_off_covered,
  expire_epoch,
}
use palla_sync.Mutation.Snapshots.{check_prune, prune, new_prune, new_snapshot, snapshot}
use palla_sync.Invariant.Appending.{outcomes-Keeps, append-Keeps, transparency-Keeps}
use palla_sync.Invariant.Checks.{check_compaction-Keeps, admin_operation-Keeps, object-Keeps}
use palla_sync.Invariant.Enrolling.{or_new-Keeps}

module _ ⦃x : External⦄ {P : Db → Type 0} (stable : IsStable P) where
  new_snapshot-Keeps : (c : Chain) (cfg : RelayConfig) (v : Value) → Keeps P (new_snapshot c cfg v)
  unfolding new_snapshot
  new_snapshot-Keeps c cfg v =
      search (keeps_rules, check_compaction-Keeps, append-Keeps stable, stable.inserts_outcome)

  pub snapshot-Keeps : (c : Chain) (cfg : RelayConfig) (v : Value) → Keeps P (snapshot c cfg v)
  unfolding snapshot
  snapshot-Keeps c cfg v =
      search (keeps_rules, outcomes-Keeps stable, or_new-Keeps stable, new_snapshot-Keeps) depth 16

  check_prune-Keeps : (c : Chain) (v : Value) → Keeps P (check_prune c v)
  unfolding check_prune
  check_prune-Keeps c v =
      search (keeps_rules, admin_operation-Keeps, object-Keeps, check_compaction-Keeps) depth 16

  expire_epochs-Keeps :
      (c : Chain) (epochs : List ℕ) (db : Db) → P db → P (expire_epochs c epochs db)
  unfolding expire_epochs
  expire_epochs-Keeps c [] db h = h
  expire_epochs-Keeps c (e ∷ es) db h =
      expire_epochs-Keeps c es (expire_epoch c e db) (stable.expires c e db h)

  pub expire-Keeps : (c : Chain) → Keeps P (expire c)
  unfolding expire
  expire-Keeps c = search (keeps_rules, Keeps-modify, expire_epochs-Keeps)

  due_at-Keeps : (c : Chain) (time : ℕ) → Keeps P (due_at c time)
  unfolding due_at
  due_at-Keeps c time = search keeps_rules

  hand_off_epoch-Keeps :
      (c : Chain) (compaction epoch : Value) → Keeps P (hand_off_epoch c compaction epoch)
  unfolding hand_off_epoch
  hand_off_epoch-Keeps c compaction epoch =
      search (keeps_rules, object-Keeps, due_at-Keeps, Keeps-modify, stable.hands_off) depth 16

  hand_off_covered-Keeps :
      (c : Chain) (compaction : Value) (through : ℕ) (epoch : Value)
      → Keeps P (hand_off_covered c compaction through epoch)
  unfolding hand_off_covered
  hand_off_covered-Keeps c compaction through epoch = search (keeps_rules, hand_off_epoch-Keeps)

  hand_off_all-Keeps :
      (c : Chain) (compaction : Value) (through : ℕ) (epochs : List Value)
      → Keeps P (hand_off_all c compaction through epochs)
  unfolding hand_off_all
  hand_off_all-Keeps c compaction through [] = search keeps_rules
  hand_off_all-Keeps c compaction through (epoch ∷ epochs) =
      Keeps-bind _ _ (hand_off_covered-Keeps c compaction through epoch)
        λ _. hand_off_all-Keeps c compaction through epochs

  pub handoff-Keeps :
      (c : Chain) (compaction : Value) (through : ℕ) → Keeps P (handoff c compaction through)
  unfolding handoff
  handoff-Keeps c compaction through =
      search (keeps_rules, hand_off_all-Keeps, expire-Keeps) depth 16

  new_prune-Keeps : (c : Chain) (cfg : RelayConfig) (v : Value) → Keeps P (new_prune c cfg v)
  unfolding new_prune
  new_prune-Keeps c cfg v =
      search
        (
          keeps_rules,
          check_prune-Keeps,
          append-Keeps stable,
          Keeps-modify,
          stable.prunes,
          handoff-Keeps,
          transparency-Keeps stable,
          stable.inserts_outcome,
        )
        depth 24

  pub prune-Keeps :
      (c : Chain) (cfg : RelayConfig) (auth : Auth) (v : Value) → Keeps P (prune c cfg auth v)
  unfolding prune
  prune-Keeps c cfg auth v =
      search (keeps_rules, outcomes-Keeps stable, or_new-Keeps stable, new_prune-Keeps) depth 16
