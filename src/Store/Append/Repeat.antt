-- ===== src/Store/Append/Repeat.antt =====
-- `append` of src/api/store.rs called twice with the same object.
use palla_sync.Prelude.{
  true, false, ℕ, ◌+◌, some, ◌≡◌, pair_eq, text_eq, nat_eq, arith, find_row, beq_self, subst, sym,
  Option-cases, inl, inr, ==_iff,
}
use palla_sync.Json.{s, n, Value}
use palla_sync.Error.{ok, err, failed}
use palla_sync.Crypto.Primitives.{External}
use palla_sync.Crypto.{object_hash}
use palla_sync.Db.{kind_eq, Chain, Kind, World}
use palla_sync.Config.{RelayConfig}
use palla_sync.Store.Append.{
  append_new, append, Appended, log_entry, enter, accept, appended_chain, append_by_digest,
  append_again,
}
use palla_sync.Store.Append.Effect.{append_new-ok, object_key, accept-ok, log_key}
use palla_sync.Store.Objects.{find_digest, put_object, object_id, object_digest, conflict}
use palla_sync.Store.Append.Idempotent.{IsPlaced, retry, accept-IsPlaced}
use palla_sync.Store.Append.Stored.{enter-digest, put_object-stored}

module _ ⦃x : External⦄ (c : Chain) (cfg : RelayConfig) (kind : Kind) (v : Value) (w : World)
    (a : Appended) (w' : World) where
  -- The halves of `append_new` when it succeeds.
  record Halves : Type 0 where
    entry : Value
    received : ℕ
    start : World
    middle : World
    entered : enter c kind v (c.head_seq + 1) entry start ≡ (ok tt, middle)
    accepted :
        accept
          (appended_chain c entry)
          cfg
          kind
          v
          (c.head_seq + 1)
          entry
          c.head_hash
          received
          middle
        ≡ (ok a, w')

  append_new-Halves : append_new c cfg kind v w ≡ (ok a, w') → Halves
  unfolding append_new
  append_new-Halves h =
      let read : World = record w { reads = w.reads + 1 } in
      let e = log_entry kind (c.head_seq + 1) (w.time w.reads) v in
      let w₁ = (enter c kind v (c.head_seq + 1) e read).1 in
      record {
        entry = e;
        received = w.time w.reads;
        start = read;
        middle = w₁;
        entered = ground arith;
        accepted = ground arith;
      }

  append_new-digest :
      append_new c cfg kind v w ≡ (ok a, w')
      → find_digest w'.db (object_key c kind v) ≡ some (object_hash v)
  unfolding find_digest enter
  append_new-digest h =
      let p = append_new-Halves h in
      let put = put_object c.chain_id kind v (some (c.log_id, c.head_seq + 1)) in
      ground (
        arith,
        accept-ok (appended_chain c p.entry) cfg kind v (c.head_seq + 1) p.entry c.head_hash
            p.received p.middle a w' p.accepted,
        enter-digest c kind v (c.head_seq + 1) p.entry p.start p.middle (object_key c kind v)
            p.entered,
        put_object-stored c.chain_id kind v (some (c.log_id, c.head_seq + 1)) true p.start
            (put p.start).1,
        put_object-stored c.chain_id kind v (some (c.log_id, c.head_seq + 1)) false p.start
            (put p.start).1,
        p.entered,
      )

  append_new-IsPlaced :
      append_new c cfg kind v w ≡ (ok a, w') → IsPlaced c.log_id (c.head_seq + 1) a.receipt
  append_new-IsPlaced h =
      let p = append_new-Halves h in
      accept-IsPlaced (appended_chain c p.entry) cfg kind v (c.head_seq + 1) p.entry c.head_hash
        p.received p.middle a w' p.accepted

  append_new-append :
      (d : Chain)
      → d.chain_id ≡ c.chain_id
      → append_new c cfg kind v w ≡ (ok a, w')
      → append d cfg kind v w'
        ≡ (ok (record { chain = d; entry = a.entry; receipt = a.receipt }), w')
  unfolding find_row
  append_new-append d same h =
      let done = append_new-ok c cfg kind v w a w' h in
      let (log, seq) = append_new-IsPlaced h in
      retry c d cfg kind v w'
        (record { log_id = c.log_id; seq = some (c.head_seq + 1); receipt = a.receipt })
        (record { entry = some a.entry; head_hash = a.chain.head_hash })
        (subst (λ i. find_digest w'.db (i, (kind, object_id v kind)) ≡ some (object_hash v))
          (sym same) (append_new-digest h))
        (ground (arith, done.receipts, beq_self (object_key c kind v)))
        (ground (arith, done.log, beq_self (log_key c)))

-- After a successful `append`, the same object given again to the chain, whatever the chain's state
-- has become, returns the entry and the receipt of the first call and changes nothing.
pub append-append :
    ⦃x : External⦄ (c d : Chain) (cfg : RelayConfig) (kind : Kind) (v : Value) (w : World)
    (a : Appended) (w' : World)
    → d.chain_id ≡ c.chain_id
    → append c cfg kind v w ≡ (ok a, w')
    → append d cfg kind v w' ≡ (ok (record { chain = d; entry = a.entry; receipt = a.receipt }), w')
unfolding append append_by_digest append_again object_digest
append-append c d cfg kind v w a w' same h =
    let again = append_new-append c cfg kind v w a w' d same in
    elim (Option-cases (find_digest w.db (object_key c kind v))) [
      | inl e ↦ again (ground (arith, e))
      | inr (old, e) ↦ elim (Option-cases (find_row (object_key c kind v) w.receipts)) [
        | inl g ↦ again (ground (arith, e, g))
        | inr (r, g) ↦
            elim (Option-cases
              (find_row (c.chain_id, (s r.receipt "log_id", n r.receipt "relay_seq")) w.log)) [
                | inl m ↦ absurd (ground (arith, e, g, m))
                | inr (l, m) ↦
                    ground (arith, e, g, m, ==_iff old (object_hash v), retry c d cfg kind v w r l)
              ]
      ]
    ]

module _ ⦃x : External⦄ (c : Chain) (cfg : RelayConfig) (kind : Kind) (v : Value) (w : World)
    (a : Appended) (w' : World) where
  pub append-stored :
      append c cfg kind v w ≡ (ok a, w')
      → find_digest w'.db (object_key c kind v) ≡ some (object_hash v)
  unfolding append append_by_digest append_again object_digest
  append-stored h = elim (Option-cases (find_digest w.db (object_key c kind v))) [
    | inl e ↦ append_new-digest c cfg kind v w a w' (ground (arith, e))
    | inr (old, e) ↦ elim (Option-cases (find_row (object_key c kind v) w.receipts)) [
      | inl g ↦ append_new-digest c cfg kind v w a w' (ground (arith, e, g))
      | inr (r, g) ↦ ground (arith, e, g, ==_iff old (object_hash v))
    ]
  ]

-- After a successful `append`, another object under the same identifier is refused with the
-- conflict code of its kind, and nothing changes.
pub append-conflict :
    ⦃x : External⦄ (c d : Chain) (cfg : RelayConfig) (kind : Kind) (v u : Value) (w : World)
    (a : Appended) (w' : World)
    → d.chain_id ≡ c.chain_id
    → object_id u kind ≡ object_id v kind
    → ¬ (object_hash u ≡ object_hash v)
    → append c cfg kind v w ≡ (ok a, w')
    → append d cfg kind u w' ≡ (err (failed (conflict kind)), w')
unfolding append append_by_digest object_digest
append-conflict c d cfg kind v u w a w' same id other h =
    ground (arith, append-stored c cfg kind v w a w' h, ==_iff (object_hash v) (object_hash u))
