-- ===== src/Store/Append.antt =====
-- The log (`append`, `snapshot_part` and the receipts of src/api/store.rs).
pub mod Effect
pub mod Stored
pub mod Immutable
pub mod Idempotent
pub mod Repeat
use palla_sync.Prelude.{
  ℕ, ◌+◌, Bool, true, false, ◌&&◌, Option, none, some, List, [], ◌∷◌, ◌++◌, String, leb, is_some,
  is_none, ◌==◌, ◌/=◌, nat_eq, text_eq, pair_eq, option_eq, if◌then◌else◌, find_row, add_row,
  update_row, count_rows, ltb,
}
use palla_sync.Json.{Value, null, num, str, object, opt_num, opt_str, s, n, set_member}
use palla_sync.Error.{storage_unavailable, internal_error}
use palla_sync.Crypto.Primitives.{External}
use palla_sync.Crypto.{codes, sign_relay, object_hash}
use palla_sync.Crypto.Jcs.{max_integer}
use palla_sync.Db.{
  SeqKey, Kind, epoch, snapshot_part, kind_text, kind_eq, ObjectRow, ReceiptRow, Chain, Db,
  ObjectKey,
}
use palla_sync.Db.Action.{
  Action, ◌>>=◌, ◌>>◌, pure, fail, fail_if, require, gets, modify, now, new_id, insert_unless,
}
use palla_sync.Config.{RelayConfig}
use palla_sync.Store.Hashes.{link_hash}
use palla_sync.Store.Objects.{object_digest, object_id, conflict, put_object}
use palla_sync.Store.Transparency.{transparency}

-- The chain that `append` has changed, the log entry (null if it was removed) and the receipt.
pub record Appended : Type 0 where
  pub chain : Chain
  pub entry : Value
  pub receipt : Value

abbrev base_entry : Kind → ℕ → ℕ → Value → Value
base_entry kind seq received v = object (
    ("relay_seq", num seq)
    ∷ ("received_at_ms", num received)
    ∷ ("kind", str (kind_text kind))
    ∷ ("object", v)
    ∷ [])

unfoldable pub log_entry : Kind → ℕ → ℕ → Value → Value
log_entry epoch seq received v =
    set_member (base_entry epoch seq received v) "committed_at_ms" (num received)
log_entry kind seq received v = base_entry kind seq received v

-- UPDATE v3_objects … WHERE log_id IS NULL
abbrev pub place_row : String → ℕ → ObjectRow → ObjectRow
place_row log seq r =
    if is_none r.log_id then record r { log_id = some log; relay_seq = some seq } else r

abbrev pub receipt_signing : List ℕ
receipt_signing = codes "PALLASYNC-UPLOAD-RECEIPT-v3" ++ 0 ∷ []

pub record ReceiptLink : Type 0 where
  pub seq : Option ℕ
  pub entry_hash : Option String
  pub previous : String
  pub received : ℕ
  pub hash : String

abbrev same_place : String → String → ℕ → ObjectKey → ReceiptRow → Bool
same_place c log seq k r = (k.0 == c) && (r.log_id == log) && (r.seq == some seq)

-- Whether the unique index over the places of receipts refuses a new one.
abbrev place_taken : Db → Chain → Option ℕ → Bool
place_taken db c none = false
place_taken db c (some seq) = ltb 0 (count_rows (same_place c.chain_id c.log_id seq) db.receipts)

abbrev pub or_null : Option Value → Value
or_null none = null
or_null (some v) = v

module _ ⦃x : External⦄ where
  abbrev pub receipt_body : Chain → RelayConfig → String → Value → ReceiptLink → Value
  receipt_body c cfg id v link = object (
      ("type", str "PALLASYNC-UPLOAD-RECEIPT-v3")
      ∷ ("version", str "3.0")
      ∷ ("receipt_id", str id)
      ∷ ("chain_id", str c.chain_id)
      ∷ ("log_id", str c.log_id)
      ∷ ("relay_key_id", str cfg.key_id)
      ∷ ("relay_seq", opt_num link.seq)
      ∷ ("object_hash", str (object_hash v))
      ∷ ("entry_hash", opt_str link.entry_hash)
      ∷ ("previous_head_hash", str link.previous)
      ∷ ("resulting_head_hash", str c.head_hash)
      ∷ ("received_at_ms", num link.received)
      ∷ ("transparency_id", str c.transparency_id)
      ∷ ("transparency_index", num c.transparency_index)
      ∷ ("transparency_hash", str link.hash)
      ∷ [])

  unfoldable pub make_receipt : Chain → RelayConfig → Value → ReceiptLink → Action Value
  make_receipt c cfg v link = do
    id ← new_id
    require (sign_relay cfg.key (receipt_body c cfg id v link) receipt_signing) internal_error

  -- The place is the receipt's own `relay_seq`, which `link.seq` gave.
  unfoldable pub store_receipt : Chain → Kind → String → Option ℕ → Value → Action (Unit {0})
  store_receipt c kind id seq r w =
      let key : ObjectKey = (c.chain_id, (kind, id)) in
      insert_unless (if is_some (find_row key w.receipts) then true else place_taken w.db c seq)
        (λ db. record db {
          receipts = add_row key (record { log_id = c.log_id; seq = seq; receipt = r }) db.receipts;
        })
        w

  -- INSERT INTO v3_log
  unfoldable pub insert_log : Chain → ℕ → Value → String → Action (Unit {0})
  insert_log c seq entry hash w =
      let key : SeqKey = (c.chain_id, (c.log_id, seq)) in
      insert_unless (is_some (find_row key w.log))
        (λ db. record db {
          log = add_row key (record { entry = some entry; head_hash = hash }) db.log;
        })
        w

  -- UPDATE v3_objects: an object that was staged outside the log gets its place.
  unfoldable pub place_object : Chain → Kind → String → ℕ → Action (Unit {0})
  place_object c kind id seq = modify λ db. record db {
    objects = update_row (c.chain_id, (kind, id)) (place_row c.log_id seq) db.objects;
  }

  -- The chain behind a new log entry.
  abbrev pub appended_chain : Chain → Value → Chain
  appended_chain c entry = record c {
    head_hash = link_hash c.head_hash (c.head_seq + 1) entry [];
    head_seq = c.head_seq + 1;
  }

  -- The middle of `append`: the object gets its place and the log its entry.
  unfoldable pub enter : Chain → Kind → Value → ℕ → Value → Action (Unit {0})
  enter c kind v seq entry = do
    _ ← put_object c.chain_id kind v (some (c.log_id, seq))
    place_object c kind (object_id v kind) seq
    insert_log c seq entry (appended_chain c entry).head_hash

  -- The end of `append`: the transparency entry and the receipt for an entry of the log.
  unfoldable pub accept :
      Chain → RelayConfig → Kind → Value → ℕ → Value → String → ℕ → Action Appended
  accept c cfg kind v seq entry previous received = do
    t ← transparency c cfg "accept" (object_hash v) (some seq) none
    receipt ← make_receipt t.chain cfg v (record {
      seq = some seq;
      entry_hash = some (object_hash entry);
      previous = previous;
      received = received;
      hash = t.hash;
    })
    store_receipt t.chain kind (object_id v kind) (some seq) receipt
    pure (record { chain = t.chain; entry = entry; receipt = receipt })

  -- The part of `append` behind its early return.
  unfoldable pub append_new : Chain → RelayConfig → Kind → Value → Action Appended
  append_new c cfg kind v = do
    fail_if (leb max_integer c.head_seq) storage_unavailable
    received ← now
    let seq = c.head_seq + 1
    let entry = log_entry kind seq received v
    enter c kind v seq entry
    accept (appended_chain c entry) cfg kind v seq entry c.head_hash received

  -- What stands in the log for an object with a receipt.
  unfoldable pub append_again :
      Option ReceiptRow → Chain → RelayConfig → Kind → Value → Action Appended
  append_again none c cfg kind v = append_new c cfg kind v
  append_again (some r) c cfg kind v = do
    row ← gets (λ db. find_row (c.chain_id, (s r.receipt "log_id", n r.receipt "relay_seq")) db.log)
    l ← require row storage_unavailable
    pure (record { chain = c; entry = or_null l.entry; receipt = r.receipt })

  unfoldable pub append_by_digest :
      Option String → Chain → RelayConfig → Kind → Value → Action Appended
  append_by_digest none c cfg kind v = append_new c cfg kind v
  append_by_digest (some d) c cfg kind v =
      if d /= object_hash v
      then fail (conflict kind)
      else (gets (λ db. find_row (c.chain_id, (kind, object_id v kind)) db.receipts) >>= λ r.
          append_again r c cfg kind v)

  unfoldable pub append : Chain → RelayConfig → Kind → Value → Action Appended
  append c cfg kind v = do
    found ← object_digest c.chain_id kind (object_id v kind)
    append_by_digest found c cfg kind v

  -- `receipt`
  unfoldable pub receipt : String → Kind → String → Action Value
  receipt c kind id = do
    row ← gets (λ db. find_row (c, (kind, id)) db.receipts)
    r ← require row storage_unavailable
    pure r.receipt

  -- A snapshot part is stored and recorded, and stands in no log.
  unfoldable pub new_snapshot_part : Chain → RelayConfig → Value → Action (Chain × Value)
  new_snapshot_part c cfg v = do
    t ← transparency c cfg "accept" (object_hash v) none none
    received ← now
    r ← make_receipt t.chain cfg v (record {
      seq = none;
      entry_hash = none;
      previous = t.chain.head_hash;
      received = received;
      hash = t.hash;
    })
    store_receipt t.chain snapshot_part (s v "record_id") none r
    pure (t.chain, r)

  abbrev pub known_snapshot_part : Chain → Value → Action (Chain × Value)
  known_snapshot_part c v = receipt c.chain_id snapshot_part (s v "record_id") >>= λ r. pure (c, r)

  -- `snapshot_part` of store.rs
  unfoldable pub store_snapshot_part : Chain → RelayConfig → Value → Action (Chain × Value)
  unfolding new_snapshot_part
  store_snapshot_part c cfg v = do
    is_new ← put_object c.chain_id snapshot_part v none
    if is_new then new_snapshot_part c cfg v else known_snapshot_part c v
