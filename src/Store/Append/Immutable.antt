-- ===== src/Store/Append/Immutable.antt =====
-- The digest of an object under the operations of the store (src/api/store.rs).
use palla_sync.Prelude.{
  none, ℕ, Option, some, ◌≡◌, String, pair_eq, text_eq, find_row, find_row-update_row, arith,
  Option-cases, ==_iff,
}
use palla_sync.Json.{Value}
use palla_sync.Crypto.Primitives.{External}
use palla_sync.Db.{Db, Kind, kind_eq, Chain, ObjectKey, ReceiptRow}
use palla_sync.Db.Keeps.{Keeps, keeps_rules}
use palla_sync.Config.{RelayConfig}
use palla_sync.Store.Append.{
  place_row, place_object, insert_log, store_receipt, make_receipt, enter, accept, append_new,
  append_again, append_by_digest, append, ReceiptLink,
}
use palla_sync.Store.Transparency.{insert_transparency, transparency}
use palla_sync.Store.Objects.{
  find_digest, object_digest, object_id, put_object, put_by_digest, insert_object,
}

-- The digest of the object under `k` is `d`.
abbrev pub HasDigest : ObjectKey → String → Db → Type 0
HasDigest k d db = find_digest db k ≡ some d

module _ ⦃x : External⦄ (k : ObjectKey) (d : String) where
  pub insert_object-HasDigest :
      (c : String) (kind : Kind) (v : Value) (place : Option (String × ℕ))
      → Keeps (HasDigest k d) (insert_object c kind v place)
  unfolding insert_object find_digest find_row
  insert_object-HasDigest c kind v place =
      let key : ObjectKey = (c, (kind, object_id v kind)) in
      record { at = λ w h. ground (arith, ==_iff key k) }

  pub put_object-HasDigest :
      (c : String) (kind : Kind) (v : Value) (place : Option (String × ℕ))
      → Keeps (HasDigest k d) (put_object c kind v place)
  unfolding put_object put_by_digest object_digest
  put_object-HasDigest c kind v place = record {
    at = λ w h. ground (arith, (insert_object-HasDigest c kind v place).at w h);
  }

  pub place_object-HasDigest :
      (c : Chain) (kind : Kind) (id : String) (seq : ℕ)
      → Keeps (HasDigest k d) (place_object c kind id seq)
  unfolding place_object find_digest
  place_object-HasDigest c kind id seq =
      let key : ObjectKey = (c.chain_id, (kind, id)) in
      record {
        at = λ w h. ground (
          arith,
          find_row-update_row key k (place_row c.log_id seq) w.objects,
          Option-cases (find_row k w.objects),
        );
      }

  pub insert_log-HasDigest :
      (c : Chain) (seq : ℕ) (entry : Value) (hash : String)
      → Keeps (HasDigest k d) (insert_log c seq entry hash)
  unfolding insert_log find_digest
  insert_log-HasDigest c seq entry hash = record { at = λ w h. ground arith }

  pub store_receipt-HasDigest :
      (c : Chain) (kind : Kind) (id : String) (seq : Option ℕ) (r : Value)
      → Keeps (HasDigest k d) (store_receipt c kind id seq r)
  unfolding store_receipt find_digest
  store_receipt-HasDigest c kind id seq r = record { at = λ w h. ground arith }

  pub insert_transparency-HasDigest :
      (c : Chain) (entry : Value) (hash : String)
      → Keeps (HasDigest k d) (insert_transparency c entry hash)
  unfolding insert_transparency find_digest
  insert_transparency-HasDigest c entry hash = record { at = λ w h. ground arith }

  pub transparency-HasDigest :
      (c : Chain) (cfg : RelayConfig) (op digest : String) (seq : Option ℕ) (code : Option String)
      → Keeps (HasDigest k d) (transparency c cfg op digest seq code)
  unfolding transparency
  transparency-HasDigest c cfg op digest seq code =
      search (keeps_rules, insert_transparency-HasDigest)

  make_receipt-HasDigest :
      (c : Chain) (cfg : RelayConfig) (v : Value) (link : ReceiptLink)
      → Keeps (HasDigest k d) (make_receipt c cfg v link)
  unfolding make_receipt
  make_receipt-HasDigest c cfg v link = search keeps_rules

  enter-HasDigest :
      (c : Chain) (kind : Kind) (v : Value) (seq : ℕ) (entry : Value)
      → Keeps (HasDigest k d) (enter c kind v seq entry)
  unfolding enter
  enter-HasDigest c kind v seq entry =
      search (keeps_rules, put_object-HasDigest, place_object-HasDigest, insert_log-HasDigest)

  accept-HasDigest :
      (c : Chain) (cfg : RelayConfig) (kind : Kind) (v : Value) (seq : ℕ) (entry : Value)
      (previous : String) (received : ℕ)
      → Keeps (HasDigest k d) (accept c cfg kind v seq entry previous received)
  unfolding accept
  accept-HasDigest c cfg kind v seq entry previous received =
      search (keeps_rules, transparency-HasDigest, make_receipt-HasDigest, store_receipt-HasDigest)

  append_new-HasDigest :
      (c : Chain) (cfg : RelayConfig) (kind : Kind) (v : Value)
      → Keeps (HasDigest k d) (append_new c cfg kind v)
  unfolding append_new
  append_new-HasDigest c cfg kind v = search (keeps_rules, enter-HasDigest, accept-HasDigest)

  append_again-HasDigest :
      (r : Option ReceiptRow) (c : Chain) (cfg : RelayConfig) (kind : Kind) (v : Value)
      → Keeps (HasDigest k d) (append_again r c cfg kind v)
  unfolding append_again
  append_again-HasDigest none c cfg kind v = append_new-HasDigest c cfg kind v
  append_again-HasDigest (some r) c cfg kind v = search keeps_rules

  append_by_digest-HasDigest :
      (found : Option String) (c : Chain) (cfg : RelayConfig) (kind : Kind) (v : Value)
      → Keeps (HasDigest k d) (append_by_digest found c cfg kind v)
  unfolding append_by_digest
  append_by_digest-HasDigest none c cfg kind v = append_new-HasDigest c cfg kind v
  append_by_digest-HasDigest (some old) c cfg kind v = search (keeps_rules, append_again-HasDigest)

  -- Whatever `append` is given and however it ends, each digest in the store stays as it is.
  pub append-HasDigest :
      (c : Chain) (cfg : RelayConfig) (kind : Kind) (v : Value)
      → Keeps (HasDigest k d) (append c cfg kind v)
  unfolding append object_digest
  append-HasDigest c cfg kind v = search (keeps_rules, append_by_digest-HasDigest)
