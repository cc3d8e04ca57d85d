-- ===== src/Invariant/Exclusive.antt =====
-- Records and snapshot parts share their identifiers (the unique index over v3_objects in
-- src/db/schema.sql, and put_object of src/api/store.rs).
use palla_sync.Prelude.{
  Bool, false, ◌&&◌, Option, String, ℕ, ◌≡◌, arith, is_some, pair_eq, text_eq, find_row, ==_iff, ap,
  ◌∙◌,
}
use palla_sync.Json.{Value}
use palla_sync.Crypto.Primitives.{External}
use palla_sync.Db.{kind_eq, Db, Kind, Chain, ObjectKey, World}
use palla_sync.Config.{RelayConfig}
use palla_sync.Db.Keeps.{Keeps}
use palla_sync.Store.Objects.{find_digest, insert_object, object_id, taken_by_other}
use palla_sync.Invariant.Digests.{digests-IsStable}
use palla_sync.Invariant.Runs.{Operation, run, run-Keeps}

-- Whether an identifier stands for a record and for a snapshot part of a chain.
abbrev pub is_shared : String → String → Db → Bool
is_shared c id db =
    is_some (find_digest db (c, (Kind.sync_record, id)))
    && is_some (find_digest db (c, (Kind.snapshot_part, id)))

abbrev IsExclusive : String → String → Db → Type 0
IsExclusive c id db = is_shared c id db ≡ false

module _ ⦃x : External⦄ (c id : String) where
  insert_object-IsExclusive :
      (chain : String) (kind : Kind) (v : Value) (place : Option (String × ℕ))
      → Keeps (IsExclusive c id) (insert_object chain kind v place)
  unfolding insert_object find_digest find_row taken_by_other
  insert_object-IsExclusive chain kind v place =
      let key : ObjectKey = (chain, (kind, object_id v kind)) in
      record {
        at = λ w h. ground (
          arith,
          h,
          ==_iff key (c, (Kind.sync_record, id)),
          ==_iff key (c, (Kind.snapshot_part, id)),
        );
      }

-- Whatever genesis, enroll, change_epoch, offer, enrollment_request, approve, ack, snapshot, prune,
-- expire, append, save, delete, upload and maintenance are given and however they end, they bring
-- no record and snapshot part of a chain under one identifier: if at most one of the two stands
-- under it before, so it does after.
pub run-exclusive :
    ⦃x : External⦄ (cfg : RelayConfig) (chain : Chain) (op : Operation) (w : World) (c id : String)
    → is_shared c id w.db ≡ false
    → is_shared c id (run cfg chain op w).db ≡ false
run-exclusive cfg chain op w c id =
    run-Keeps
      (digests-IsStable (IsExclusive c id)
        (λ old db same h.
          ap (λ o. is_some o && is_some (find_digest db (c, (Kind.snapshot_part, id))))
            (same (c, (Kind.sync_record, id)))
          ∙ ap (λ o. is_some (find_digest old (c, (Kind.sync_record, id))) && is_some o)
              (same (c, (Kind.snapshot_part, id)))
          ∙ h)
        (insert_object-IsExclusive c id))
      cfg chain op w
