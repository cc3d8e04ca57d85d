-- ===== src/Store/Append/Effect.antt =====
-- What a successful `append` of src/api/store.rs has done.
use palla_sync.Prelude.{
  ◌+◌, false, ◌≡◌, pair_eq, text_eq, nat_eq, leb, arith, is_some, find_row, add_row, some, ℕ,
  String,
}
use palla_sync.Json.{Value}
use palla_sync.Error.{ok}
use palla_sync.Crypto.Primitives.{External}
use palla_sync.Crypto.Jcs.{max_integer}
use palla_sync.Db.{World, Kind, kind_eq, Chain, SeqKey, ObjectKey}
use palla_sync.Config.{RelayConfig}
use palla_sync.Store.Append.{
  Appended, log_entry, append_new, insert_log, place_object, store_receipt, make_receipt,
  appended_chain, accept, enter,
}
use palla_sync.Store.Transparency.{recorded_chain, insert_transparency, transparency}
use palla_sync.Store.Objects.{
  object_id, put_object, put_by_digest, object_digest, insert_object, find_digest,
}

abbrev pub log_key : Chain → SeqKey
log_key c = (c.chain_id, (c.log_id, c.head_seq + 1))

abbrev pub object_key : Chain → Kind → Value → ObjectKey
object_key c kind v = (c.chain_id, (kind, object_id v kind))

module _ ⦃x : External⦄ where
  -- What has happened when the log has grown by one entry.
  pub record Appends (c : Chain) (cfg : RelayConfig) (kind : Kind) (v : Value) (w : World)
      (a : Appended) (w' : World) : Type 0 where
    pub room : leb max_integer c.head_seq ≡ false
    pub entry : a.entry ≡ log_entry kind (c.head_seq + 1) (w.time w.reads) v
    pub chain : a.chain ≡ recorded_chain (appended_chain c a.entry) a.chain.transparency_hash
    pub fresh : is_some (find_row (log_key c) w.log) ≡ false
    pub log :
        w'.log
        ≡ add_row (log_key c) (record { entry = some a.entry; head_hash = a.chain.head_hash }) w.log
    pub receipts :
        w'.receipts
        ≡ add_row
            (object_key c kind v)
            (record { log_id = c.log_id; seq = some (c.head_seq + 1); receipt = a.receipt })
            w.receipts
    pub frame : w'.db ≡ record w.db {
      objects = w'.objects;
      log = w'.log;
      receipts = w'.receipts;
      transparency = w'.transparency;
    }

  -- What has happened when an entry of the log has its transparency entry and its receipt.
  pub record Accepts (c : Chain) (kind : Kind) (v : Value) (seq : ℕ) (entry : Value) (w : World)
      (a : Appended) (w' : World) : Type 0 where
    pub chain : a.chain ≡ recorded_chain c a.chain.transparency_hash
    pub entry_kept : a.entry ≡ entry
    pub receipts :
        w'.receipts
        ≡ add_row
            (object_key c kind v)
            (record { log_id = c.log_id; seq = some seq; receipt = a.receipt })
            w.receipts
    pub frame : w'.db ≡ record w.db { receipts = w'.receipts; transparency = w'.transparency }

  pub accept-ok :
      (c : Chain) (cfg : RelayConfig) (kind : Kind) (v : Value) (seq : ℕ) (entry : Value)
      (previous : String) (received : ℕ) (w : World) (a : Appended) (w' : World)
      → accept c cfg kind v seq entry previous received w ≡ (ok a, w')
      → Accepts c kind v seq entry w a w'
  unfolding accept make_receipt store_receipt transparency insert_transparency
  accept-ok c cfg kind v seq entry previous received w a w' h = ground arith

  -- What has happened when the object has its place and the log its entry.
  record Enters (c : Chain) (kind : Kind) (v : Value) (entry : Value) (w w' : World) : Type 0 where
    fresh : is_some (find_row (log_key c) w.log) ≡ false
    log :
        w'.log
        ≡ add_row
            (log_key c)
            (record { entry = some entry; head_hash = (appended_chain c entry).head_hash })
            w.log
    frame : w'.db ≡ record w.db { objects = w'.objects; log = w'.log }

  enter-ok :
      (c : Chain) (kind : Kind) (v : Value) (entry : Value) (w w' : World)
      → enter c kind v (c.head_seq + 1) entry w ≡ (ok tt, w')
      → Enters c kind v entry w w'
  unfolding enter insert_log place_object put_object put_by_digest object_digest insert_object
      find_digest
  enter-ok c kind v entry w w' h = ground arith

  pub append_new-ok :
      (c : Chain) (cfg : RelayConfig) (kind : Kind) (v : Value) (w : World) (a : Appended)
      (w' : World)
      → append_new c cfg kind v w ≡ (ok a, w')
      → Appends c cfg kind v w a w'
  unfolding append_new
  append_new-ok c cfg kind v w a w' h =
      let read : World = record w { reads = w.reads + 1 } in
      let entry = log_entry kind (c.head_seq + 1) (w.time w.reads) v in
      let w₁ = (enter c kind v (c.head_seq + 1) entry read).1 in
      ground (
        arith,
        enter-ok c kind v entry read w₁,
        accept-ok (appended_chain c entry) cfg kind v (c.head_seq + 1) entry c.head_hash
            (w.time w.reads) w₁ a w',
      )
