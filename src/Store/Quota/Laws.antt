-- ===== src/Store/Quota/Laws.antt =====
-- `save`, `quota` and `publish_notice` of src/api/store.rs.
use palla_sync.Store.Quota.Documented.{documented, removed, used-removed}
use palla_sync.Prelude.{
  Option, none, Bool, ◌==◌, ◌∙◌, ◌+◌, delete_rows, false, some, ◌≡◌, text_eq, pair_eq, nat_eq,
  find_row, arith, beq_self, upsert, Option-cases, ap, find_row-upsert, inl, inr,
}
use palla_sync.Json.{Value}
use palla_sync.Error.{ok}
use palla_sync.Crypto.Primitives.{External}
use palla_sync.Db.{Db, World, Chain, SeqKey}
use palla_sync.Config.{RelayConfig}
use palla_sync.Store.Quota.{
  used, quota, save, publish_head, exceeds, sign_relay, transparency_head, head_signing,
}

abbrev pub head_key : Chain → SeqKey
head_key c = (c.chain_id, (c.transparency_id, c.transparency_index))

abbrev pub is_at : SeqKey → SeqKey → Value → Bool
is_at k j h = j == k

abbrev pub or_new : Option Value → Value → Value
or_new none v = v
or_new (some old) v = old

publish_head-others :
    (c : Chain) (v : Value) (db : Db)
    → delete_rows (is_at (head_key c)) (publish_head c v db).heads
      ≡ delete_rows (is_at (head_key c)) db.heads
unfolding publish_head delete_rows
publish_head-others c v db = ground (arith, beq_self (head_key c))

publish_head-published :
    (c : Chain) (v : Value) (db : Db)
    → find_row (head_key c) (publish_head c v db).heads
      ≡ some (or_new (find_row (head_key c) db.heads) v)
unfolding publish_head find_row
publish_head-published c v db = ground (arith, beq_self (head_key c))

publish_head-chains : (c : Chain) (v : Value) (db : Db) → (publish_head c v db).chains ≡ db.chains
unfolding publish_head
publish_head-chains c v db = ground arith

module _ ⦃x : External⦄ (c : Chain) (cfg : RelayConfig) (w w' : World) where
  abbrev stored : Db
  stored = record w.db { chains = upsert c.chain_id c w.chains }

  -- The chain is stored, the head `v` is published unless there is one at the chain's index, and the
  -- limit holds for the bytes that README.md describes, less those that `used` leaves out.
  pub record IsSaved (v : Value) : Type 0 where
    stored_chain : find_row c.chain_id w'.chains ≡ some c
    signed : sign_relay cfg.key (transparency_head c cfg (w.time w.reads)) head_signing ≡ some v
    published : find_row (head_key c) w'.heads ≡ some (or_new (find_row (head_key c) w.heads) v)
    other_heads :
        delete_rows (is_at (head_key c)) w'.heads ≡ delete_rows (is_at (head_key c)) w.heads
    within : exceeds cfg.max_bytes (used w'.db c.chain_id) ≡ false
    counted : used w'.db c.chain_id + removed w'.db c.chain_id ≡ documented w'.db c.chain_id

  save-writes :
      save c cfg w ≡ (ok tt, w')
      → (v : Value) × ((sign_relay cfg.key (transparency_head c cfg (w.time w.reads)) head_signing
            ≡ some v)
          × ((w'.db ≡ publish_head c v stored)
              × (exceeds cfg.max_bytes (used w'.db c.chain_id) ≡ false)))
  unfolding save quota
  save-writes h =
      elim (Option-cases
        (sign_relay cfg.key (transparency_head c cfg (w.time w.reads)) head_signing)) [
          | inl e ↦ absurd (ground (arith, e))
          | inr (v, e) ↦ (v, (e, (ground (arith, e), ground (arith, e))))
        ]

  -- A successful save has stored the chain. At the chain's index the head that was published stays, or
  -- else the relay's signed head of this chain is published, and every other head is as it was. What
  -- `used` counts is within the limit; it is what README.md describes less the identifiers and
  -- hashes of objects and log entries whose bodies were removed.
  pub save-ok : save c cfg w ≡ (ok tt, w') → (v : Value) × IsSaved v
  save-ok h =
      let (v, (signed, (e, fits))) = save-writes h in
      let heads : w'.heads ≡ (publish_head c v stored).heads = ap (λ (d : Db). d.heads) e in
      (
        v,
        record {
          stored_chain = ground (
            arith,
            e,
            publish_head-chains c v stored,
            find_row-upsert c.chain_id c.chain_id c w.chains,
            beq_self c.chain_id,
          );
          signed = signed;
          published = ap (find_row (head_key c)) heads ∙ publish_head-published c v stored;
          other_heads =
              ap (delete_rows (is_at (head_key c))) heads ∙ publish_head-others c v stored;
          within = fits;
          counted = used-removed w'.db c.chain_id;
        },
      )
