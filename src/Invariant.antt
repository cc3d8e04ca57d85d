-- ===== src/Invariant.antt =====
-- Invariants of the database under every operation of src/api: an invariant that each write of the
-- store keeps is kept by each operation, whether it succeeds or fails.
pub mod Appending
pub mod Checks
pub mod Enrolling
pub mod Operations
pub mod Removals
pub mod Digests
pub mod Revoked
pub mod Requests
pub mod Batches
pub mod Completion
pub mod Exclusive
pub mod Runs
use palla_sync.Prelude.{pair_eq, text_eq, ℕ, Bool, Option, List, String, update_row, upsert}
use palla_sync.Json.{Value}
use palla_sync.Crypto.Primitives.{External}
use palla_sync.Db.{Kind, Status, OfferRow, Chain, Db, DeletionRow}
use palla_sync.Db.Keeps.{Keeps}
use palla_sync.Store.Objects.{insert_object}
use palla_sync.Store.Append.{place_object, insert_log, store_receipt}
use palla_sync.Store.Transparency.{insert_transparency}
use palla_sync.Store.Outcomes.{outcome}
use palla_sync.Domain.Devices.{register}
use palla_sync.Domain.Commit.{revoke_all}
use palla_sync.Mutation.Offers.{activate_device, insert_offer}
use palla_sync.Store.Quota.{publish_head}
use palla_sync.Mutation.Snapshots.{prune_records}
use palla_sync.Retention.{hand_off, expire_epoch}
use palla_sync.Deletion.{insert_deletion}
use palla_sync.Domain.Records.{reserve_payload_nonce}

-- The writes of the store and of the operations, each of which keeps `P`.
pub record IsStable ⦃x : External⦄ (P : Db → Type 0) : Type 0 where
  pub inserts_object :
      (c : String) (kind : Kind) (v : Value) (place : Option (String × ℕ))
      → Keeps P (insert_object c kind v place)
  pub places_object :
      (c : Chain) (kind : Kind) (id : String) (seq : ℕ) → Keeps P (place_object c kind id seq)
  pub inserts_log :
      (c : Chain) (seq : ℕ) (entry : Value) (hash : String) → Keeps P (insert_log c seq entry hash)
  pub stores_receipt :
      (c : Chain) (kind : Kind) (id : String) (seq : Option ℕ) (r : Value)
      → Keeps P (store_receipt c kind id seq r)
  pub inserts_transparency :
      (c : Chain) (entry : Value) (hash : String) → Keeps P (insert_transparency c entry hash)
  pub inserts_outcome :
      (c scope id : String) (payload response : Value)
      → Keeps P (outcome c scope id payload response)
  pub registers :
      (c : Chain) (d : Value) (seq : ℕ) (status : Status) → Keeps P (register c d seq status)
  pub revokes :
      (c : String) (seq : ℕ) (ids : List String) (db : Db) → P db → P (revoke_all c seq ids db)
  pub activates : (c id : String) (db : Db) → P db → P (activate_device c id db)
  pub inserts_offer : (c : Chain) (id : String) (o : Value) → Keeps P (insert_offer c id o)
  pub updates_offers :
      (k : String × String) (f : OfferRow → OfferRow) (db : Db)
      → P db
      → P (record db { offers = update_row k f db.offers })
  pub sets_notice :
      (id : String) (v : Value) (db : Db)
      → P db
      → P (record db { notices = upsert id v db.notices })
  pub sets_chain :
      (id : String) (c : Chain) (db : Db) → P db → P (record db { chains = upsert id c db.chains })
  pub publishes : (c : Chain) (h : Value) (db : Db) → P db → P (publish_head c h db)
  pub prunes : (c : Chain) (through : ℕ) (db : Db) → P db → P (prune_records c through db)
  pub hands_off :
      (c : Chain) (v : Value) (epoch due : ℕ) (db : Db) → P db → P (hand_off c v epoch due db)
  pub expires : (c : Chain) (epoch : ℕ) (db : Db) → P db → P (expire_epoch c epoch db)
  pub inserts_deletion : (c : String) (d : DeletionRow) → Keeps P (insert_deletion c d)
  pub reserves_nonce : (c : Chain) (v : Value) → Keeps P (reserve_payload_nonce c v)
