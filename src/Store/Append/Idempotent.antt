-- ===== src/Store/Append/Idempotent.antt =====
-- A retry of `append` (src/api/store.rs) returns what the first call returned and changes nothing.
use palla_sync.Prelude.{
  ℕ, some, ◌≡◌, refl, String, pair_eq, text_eq, nat_eq, arith, List, Option, subst, sym, none, ap,
  find_row, beq_self,
}
use palla_sync.Json.{Value, s, str, set_member, object, n}
use palla_sync.Crypto.Primitives.{External}
use palla_sync.Crypto.{sign_relay, signing_bytes, object_hash}
use palla_sync.Db.{kind_eq, Chain, Kind, World, ReceiptRow, LogRow}
use palla_sync.Config.{RelayConfig}
use palla_sync.Store.Append.{
  receipt_body, make_receipt, accept, Appended, receipt_signing, transparency, store_receipt,
  append, append_by_digest, append_again, or_null,
}
use palla_sync.Error.{ok}
use palla_sync.Db.Inversion.{bind-ok}
use palla_sync.Store.Transparency.Links.{transparency-ok}
use palla_sync.Store.Objects.{find_digest, object_digest, object_id}

module _ ⦃x : External⦄ where
  -- A signature adds one member to an object.
  sign_relay-ok :
      (key : List ℕ) (v w : Value) (context : List ℕ)
      → sign_relay key v context ≡ some w
      → (t : String) × (w ≡ set_member v "relay_signature" (str t))
  unfolding sign_relay
  sign_relay-ok key v w context h =
      (x.encode (x.sign key (signing_bytes v context "relay_signature")), ground arith)

  abbrev pub IsPlaced : String → ℕ → Value → Type 0
  IsPlaced log seq r = (s r "log_id" ≡ log) × (n r "relay_seq" ≡ seq)

  receipt_body-IsPlaced :
      (c : Chain) (cfg : RelayConfig) (id : String) (v : Value) (seq : ℕ)
      (entry_hash : Option String) (previous : String) (received : ℕ) (hash t : String)
      → IsPlaced c.log_id seq (
          set_member
            (receipt_body c cfg id v (record {
              seq = some seq;
              entry_hash = entry_hash;
              previous = previous;
              received = received;
              hash = hash;
            }))
            "relay_signature"
            (str t))
  unfolding s n set_member object
  receipt_body-IsPlaced c cfg id v seq entry_hash previous received hash t = (refl, refl)

  make_receipt-IsPlaced :
      (c : Chain) (cfg : RelayConfig) (v : Value) (seq : ℕ) (entry_hash : Option String)
      (previous : String) (received : ℕ) (hash : String) (w : World) (r : Value) (w' : World)
      → make_receipt c cfg v
          (record {
            seq = some seq;
            entry_hash = entry_hash;
            previous = previous;
            received = received;
            hash = hash;
          })
          w
        ≡ (ok r, w')
      → IsPlaced c.log_id seq r
  unfolding make_receipt
  make_receipt-IsPlaced c cfg v seq entry_hash previous received hash w r w' h =
      let body = receipt_body c cfg (w.fresh_id w.drawn) v (record {
        seq = some seq;
        entry_hash = entry_hash;
        previous = previous;
        received = received;
        hash = hash;
      }) in
      let signed : sign_relay cfg.key body receipt_signing ≡ some r = ground arith in
      let (t, e) = sign_relay-ok cfg.key body r receipt_signing signed in
      subst (IsPlaced c.log_id seq) (sym e)
        (receipt_body-IsPlaced c cfg (w.fresh_id w.drawn) v seq entry_hash previous received hash t)

  pub accept-IsPlaced :
      (c : Chain) (cfg : RelayConfig) (kind : Kind) (v : Value) (seq : ℕ) (entry : Value)
      (previous : String) (received : ℕ) (w : World) (a : Appended) (w' : World)
      → accept c cfg kind v seq entry previous received w ≡ (ok a, w')
      → IsPlaced c.log_id seq a.receipt
  unfolding accept store_receipt
  accept-IsPlaced c cfg kind v seq entry previous received w a w' h =
      let m = transparency c cfg "accept" (object_hash v) (some seq) none in
      let b = bind-ok m _ w h in
      let t = b.value in
      let done =
        transparency-ok c cfg "accept" (object_hash v) (some seq) none w t b.world b.first in
      let b' =
        bind-ok
          (make_receipt t.chain cfg v (record {
            seq = some seq;
            entry_hash = some (object_hash entry);
            previous = previous;
            received = received;
            hash = t.hash;
          }))
          _ b.world b.rest in
      let placed =
        make_receipt-IsPlaced t.chain cfg v seq (some (object_hash entry)) previous received t.hash
          b.world b'.value b'.world b'.first in
      let same_log : t.chain.log_id ≡ c.log_id = ap (λ (d : Chain). d.log_id) done.chain in
      let same_receipt : a.receipt ≡ b'.value = ground (arith, b'.rest) in
      subst (IsPlaced c.log_id seq) (sym same_receipt)
        (subst (λ l. IsPlaced l seq b'.value) same_log placed)

  -- A retry finds the digest, the receipt and the entry of the first call.
  pub retry :
      (c d : Chain) (cfg : RelayConfig) (kind : Kind) (v : Value) (w : World) (r : ReceiptRow)
      (l : LogRow)
      → find_digest w.db (d.chain_id, (kind, object_id v kind)) ≡ some (object_hash v)
      → find_row (d.chain_id, (kind, object_id v kind)) w.receipts ≡ some r
      → find_row (d.chain_id, (s r.receipt "log_id", n r.receipt "relay_seq")) w.log ≡ some l
      → append d cfg kind v w
        ≡ (ok (record { chain = d; entry = or_null l.entry; receipt = r.receipt }), w)
  unfolding append append_by_digest append_again object_digest
  retry c d cfg kind v w r l h k m = ground (arith, beq_self (object_hash v))
