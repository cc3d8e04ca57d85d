-- ===== src/Store/Linked/Kept.antt =====
-- `append` and `transparency` of src/api/store.rs extend the hash chains.
use palla_sync.Prelude.{
  inl, inr, beq_self, ℕ, ◌+◌, Option, some, List, String, ◌≡◌, find_row, pair_eq, text_eq, nat_eq,
  arith, [], ==_iff, subst, sym, Option-cases,
}
use palla_sync.Json.{Value}
use palla_sync.Error.{ok}
use palla_sync.Crypto.Primitives.{External}
use palla_sync.Db.{kind_eq, LogRow, Chain, World, Kind}
use palla_sync.Config.{RelayConfig}
use palla_sync.Store.Append.{Appended, append_new, append, append_by_digest, append_again}
use palla_sync.Store.Append.Effect.{Appends, append_new-ok, log_key, object_key}
use palla_sync.Store.Linked.{begin, link, IsLinked, log_rows, HasLinkedLog, link_hash}
use palla_sync.Store.Objects.{object_digest, find_digest}

module _ ⦃x : External⦄ {rows rows' : ℕ → Option LogRow} {context : List ℕ} {start : String}
    (grows : (i : ℕ) (r : LogRow) → rows i ≡ some r → rows' i ≡ some r) where
  -- More rows do no harm.
  pub IsLinked-grows :
      {n : ℕ} {h : String} → IsLinked rows context start n h → IsLinked rows' context start n h
  IsLinked-grows begin = begin
  IsLinked-grows (link {seq} row before found hashed) =
      link row (IsLinked-grows before) (grows (seq + 1) row found) hashed

module _ ⦃x : External⦄ (c : Chain) (cfg : RelayConfig) (kind : Kind) (v : Value) (w : World)
    (a : Appended) (w' : World) where
  append_new-grows :
      Appends c cfg kind v w a w'
      → (i : ℕ) (r : LogRow) → log_rows w.db c i ≡ some r
      → log_rows w'.db c i ≡ some r
  unfolding find_row
  append_new-grows done i r h =
      let key = log_key c in
      ground (arith, done.log, done.fresh, ==_iff key (c.chain_id, (c.log_id, i)))

  append_new-HasLinkedLog :
      append_new c cfg kind v w ≡ (ok a, w') → HasLinkedLog w.db c → HasLinkedLog w'.db a.chain
  unfolding find_row
  append_new-HasLinkedLog h linked =
      let done = append_new-ok c cfg kind v w a w' h in
      subst (HasLinkedLog w'.db) (sym done.chain) (
        link
          (record {
            entry = some a.entry;
            head_hash = link_hash c.head_hash (c.head_seq + 1) a.entry [];
          })
          (IsLinked-grows (append_new-grows done) linked)
          (ground (arith, done.log, done.chain, beq_self (log_key c))) (λ e p. ground (arith, p)))

  -- `append` extends a log that is linked to its head, or leaves it.
  pub append-HasLinkedLog :
      append c cfg kind v w ≡ (ok a, w') → HasLinkedLog w.db c → HasLinkedLog w'.db a.chain
  unfolding append append_by_digest append_again object_digest
  append-HasLinkedLog h linked = elim (Option-cases (find_digest w.db (object_key c kind v))) [
    | inl e ↦ append_new-HasLinkedLog (ground (arith, e)) linked
    | inr (old, e) ↦ elim (Option-cases (find_row (object_key c kind v) w.receipts)) [
      | inl g ↦ append_new-HasLinkedLog (ground (arith, e, g)) linked
      | inr (r, g) ↦
          let same : w' ≡ w = ground (arith, e, g) in
          let same_chain : a.chain ≡ c = ground (arith, e, g) in
          subst (λ (d : World). HasLinkedLog d.db a.chain) (sym same)
            (subst (HasLinkedLog w.db) (sym same_chain) linked)
    ]
  ]
