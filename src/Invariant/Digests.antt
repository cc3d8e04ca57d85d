-- ===== src/Invariant/Digests.antt =====
-- The digests of objects under the writes of src/api: pruning and expiry remove bodies, which are not
-- part of them.
use palla_sync.Domain.Devices.{register}
use palla_sync.Store.Outcomes.{outcome}
use palla_sync.Store.Quota.{publish_head}
use palla_sync.Mutation.Offers.{activate_device, insert_offer}
use palla_sync.Db.Action.{Action}
use palla_sync.Db.{World, Kind}
use palla_sync.Store.Append.{place_object, place_row, insert_log, store_receipt}
use palla_sync.Store.Transparency.{insert_transparency}
use palla_sync.Store.Objects.{insert_object}
use palla_sync.Prelude.{
  Bool, Option, find_row-update_row, Option-cases, ◌∙◌, update_rows, [], ◌∷◌, pair_eq, text_eq, ℕ,
  String, ◌≡◌, refl, arith, find_row, map_to, update_rows-part, List,
}
use palla_sync.Crypto.Primitives.{External}
use palla_sync.Db.{kind_eq, ObjectKey, ObjectRow, Db, Chain, Status, DeletionRow}
use palla_sync.Invariant.{IsStable, Value, Keeps, insert_deletion, reserve_payload_nonce}
use palla_sync.Store.Objects.{find_digest}
use palla_sync.Retention.{is_envelope_of, drop_body, expire_epoch, hand_off}
use palla_sync.Domain.Commit.{revoke, revoke_all}
use palla_sync.Mutation.Snapshots.{is_pruned_object, prune_records}
use palla_sync.Store.Append.Immutable.{HasDigest, insert_object-HasDigest}
use palla_sync.Deletion.{insert_deletion}
use palla_sync.Domain.Records.{reserve_payload_nonce}

-- The digests of `db` are those of `old`.
abbrev HasDigestsOf : Db → Db → Type 0
HasDigestsOf old db = (k : ObjectKey) → find_digest db k ≡ find_digest old k

find_digest-part :
    (db : Db) (k : ObjectKey)
    → find_digest db k ≡ map_to (λ (r : ObjectRow). r.object_hash) (find_row k db.objects)
unfolding find_digest
find_digest-part db k = ground arith

-- Whatever is updated, bodies are all that is dropped.
drop_body-HasDigestsOf :
    (p : ObjectKey → ObjectRow → Bool) (old db : Db)
    → db.objects ≡ update_rows p drop_body old.objects
    → HasDigestsOf old db
drop_body-HasDigestsOf p old db e k = ground (
  arith,
  e,
  find_digest-part db k,
  find_digest-part old k,
  update_rows-part (λ (r : ObjectRow). r.object_hash) k p drop_body old.objects (λ r. refl),
)

prune_records-HasDigestsOf :
    (c : Chain) (through : ℕ) (db : Db) → HasDigestsOf db (prune_records c through db)
unfolding prune_records
prune_records-HasDigestsOf c through db =
    drop_body-HasDigestsOf (is_pruned_object c through) db (prune_records c through db) refl

expire_epoch-HasDigestsOf :
    (c : Chain) (epoch : ℕ) (db : Db) → HasDigestsOf db (expire_epoch c epoch db)
unfolding expire_epoch
expire_epoch-HasDigestsOf c epoch db =
    drop_body-HasDigestsOf (is_envelope_of c.chain_id epoch) db (expire_epoch c epoch db) refl

revoke_all-HasDigestsOf :
    (c : String) (seq : ℕ) (ids : List String) (db : Db) → HasDigestsOf db (revoke_all c seq ids db)
unfolding revoke_all revoke find_digest
revoke_all-HasDigestsOf c seq [] db k = refl
revoke_all-HasDigestsOf c seq (id ∷ ids) db k =
    revoke_all-HasDigestsOf c seq ids (revoke c seq id db) k

activate_device-HasDigestsOf : (c id : String) (db : Db) → HasDigestsOf db (activate_device c id db)
unfolding activate_device find_digest
activate_device-HasDigestsOf c id db k = ground arith

publish_head-HasDigestsOf :
    (c : Chain) (v : Value) (db : Db) → HasDigestsOf db (publish_head c v db)
unfolding publish_head find_digest
publish_head-HasDigestsOf c v db k = ground arith

hand_off-HasDigestsOf :
    (c : Chain) (v : Value) (epoch due : ℕ) (db : Db) → HasDigestsOf db (hand_off c v epoch due db)
unfolding hand_off find_digest
hand_off-HasDigestsOf c v epoch due db k = ground arith

-- The digests behind an action are those before it.
abbrev Leaves : {A : Type 0} → Action A → Type 0
Leaves m = (w : World) → HasDigestsOf w.db (m w).1.db

place_object-Leaves :
    ⦃x : External⦄ (c : Chain) (kind : Kind) (id : String) (seq : ℕ)
    → Leaves (place_object c kind id seq)
unfolding place_object find_digest
place_object-Leaves c kind id seq w k =
    let key : ObjectKey = (c.chain_id, (kind, id)) in
    ground (
      arith,
      find_row-update_row key k (place_row c.log_id seq) w.objects,
      Option-cases (find_row k w.objects),
    )

insert_log-Leaves :
    ⦃x : External⦄ (c : Chain) (seq : ℕ) (entry : Value) (hash : String)
    → Leaves (insert_log c seq entry hash)
unfolding insert_log find_digest
insert_log-Leaves c seq entry hash w k = ground arith

store_receipt-Leaves :
    ⦃x : External⦄ (c : Chain) (kind : Kind) (id : String) (seq : Option ℕ) (r : Value)
    → Leaves (store_receipt c kind id seq r)
unfolding store_receipt find_digest
store_receipt-Leaves c kind id seq r w k = ground arith

insert_transparency-Leaves :
    ⦃x : External⦄ (c : Chain) (entry : Value) (hash : String)
    → Leaves (insert_transparency c entry hash)
unfolding insert_transparency find_digest
insert_transparency-Leaves c entry hash w k = ground arith

register-Leaves :
    (c : Chain) (v : Value) (seq : ℕ) (status : Status) → Leaves (register c v seq status)
unfolding register find_digest
register-Leaves c v seq status w k = ground arith

insert_offer-Leaves : (c : Chain) (id : String) (o : Value) → Leaves (insert_offer c id o)
unfolding insert_offer find_digest
insert_offer-Leaves c id o w k = ground arith

insert_deletion-Leaves : (c : String) (r : DeletionRow) → Leaves (insert_deletion c r)
unfolding insert_deletion find_digest
insert_deletion-Leaves c r w k = ground arith

reserve_payload_nonce-Leaves : (c : Chain) (v : Value) → Leaves (reserve_payload_nonce c v)
unfolding reserve_payload_nonce find_digest
reserve_payload_nonce-Leaves c v w k = ground arith

module _ ⦃x : External⦄ where
  outcome-Leaves :
      (c scope id : String) (payload response : Value)
      → Leaves (outcome c scope id payload response)
  unfolding outcome find_digest
  outcome-Leaves c scope id payload response w k = ground arith

-- Of what only reads digests, the insertion of an object is the one write to look at.
module _ ⦃x : External⦄ (P : Db → Type 0)
    (reads_digests : (old db : Db) → HasDigestsOf old db → P old → P db) where
  leaves : {A : Type 0} (m : Action A) → Leaves m → Keeps P m
  leaves m h = record { at = λ w p. reads_digests w.db (m w).1.db (h w) p }

  pub digests-IsStable :
      ((c : String) (kind : Kind) (v : Value) (place : Option (String × ℕ))
        → Keeps P (insert_object c kind v place))
      → IsStable P
  unfolding find_digest
  digests-IsStable inserts = record {
    inserts_object = inserts;
    places_object = λ c kind id seq. leaves _ (place_object-Leaves c kind id seq);
    inserts_log = λ c seq entry hash. leaves _ (insert_log-Leaves c seq entry hash);
    stores_receipt = λ c kind id seq r. leaves _ (store_receipt-Leaves c kind id seq r);
    inserts_transparency = λ c entry hash. leaves _ (insert_transparency-Leaves c entry hash);
    inserts_outcome = λ c scope id p r. leaves _ (outcome-Leaves c scope id p r);
    registers = λ c v seq status. leaves _ (register-Leaves c v seq status);
    revokes = λ c seq ids db. reads_digests db _ (revoke_all-HasDigestsOf c seq ids db);
    activates = λ c id db. reads_digests db _ (activate_device-HasDigestsOf c id db);
    inserts_offer = λ c id o. leaves _ (insert_offer-Leaves c id o);
    updates_offers = λ j f db. reads_digests db _ (λ k. refl);
    sets_notice = λ id v db. reads_digests db _ (λ k. refl);
    sets_chain = λ id c db. reads_digests db _ (λ k. refl);
    publishes = λ c v db. reads_digests db _ (publish_head-HasDigestsOf c v db);
    prunes = λ c through db. reads_digests db _ (prune_records-HasDigestsOf c through db);
    hands_off = λ c v epoch due db. reads_digests db _ (hand_off-HasDigestsOf c v epoch due db);
    expires = λ c epoch db. reads_digests db _ (expire_epoch-HasDigestsOf c epoch db);
    inserts_deletion = λ c r. leaves _ (insert_deletion-Leaves c r);
    reserves_nonce = λ c v. leaves _ (reserve_payload_nonce-Leaves c v);
  }

module _ ⦃x : External⦄ (k : ObjectKey) (d : String) where
  pub HasDigest-IsStable : IsStable (HasDigest k d)
  HasDigest-IsStable =
      digests-IsStable (HasDigest k d) (λ old db same h. same k ∙ h) (insert_object-HasDigest k d)
