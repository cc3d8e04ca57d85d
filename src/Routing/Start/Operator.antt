-- ===== src/Routing/Start/Operator.antt =====
-- Which configurations a database accepts (`AppState::new` of src/api/sync.rs).
use palla_sync.Prelude.{
  refl, ◌≡◌, ◌≤◌, some, arith, Option, false, ==_iff, none, text_eq, nat_eq, ap, sym, ◌∙◌, subst,
}
use palla_sync.Crypto.Primitives.{External}
use palla_sync.Db.{OperatorRow, World}
use palla_sync.Routing.Start.{
  register_operator, transaction, RelayConfig, operator_row, raise_barrier, conflicts, register_row,
  updated_operator, revision, object_hash,
}
use palla_sync.Db.Action.{transaction, fail_if}
use palla_sync.Config.{RelayConfig}
use palla_sync.Error.{ok, ApiError, err, invalid_field}
use palla_sync.Db.Inversion.{bind-ok, fail_if-ok}
use palla_sync.Crypto.{object_hash}
use palla_sync.Deletion.Erasure.Completion.{transaction-ok}

-- What a new operator row owes to the old one.
pub record Succeeds (old new : OperatorRow) : Type 0 where
  pub origin : new.origin ≡ old.origin
  pub relay_key_id : new.relay_key_id ≡ old.relay_key_id
  pub revision : old.revision ≤ new.revision
  pub same : old.revision ≡ new.revision → new.disclosure_hash ≡ old.disclosure_hash

module _ ⦃x : External⦄ where
  raise_barrier-operator :
      (cfg : RelayConfig) (w w' : World) {u : Unit {0}}
      → raise_barrier cfg w ≡ (ok u, w')
      → w'.operator ≡ w.operator
  unfolding raise_barrier
  raise_barrier-operator cfg w w' h = ground (arith, h)

  updated-row :
      (cfg : RelayConfig) (o : Option OperatorRow)
      → conflicts cfg o ≡ false
      → updated_operator cfg o ≡ operator_row cfg
  unfolding conflicts operator_row
  updated-row cfg none h = refl
  updated-row cfg (some o) h =
      ground (arith, h, ==_iff o.origin cfg.origin, ==_iff o.relay_key_id cfg.key_id)

  conflicts-Succeeds :
      (cfg : RelayConfig) (o : OperatorRow)
      → conflicts cfg (some o) ≡ false
      → Succeeds o (operator_row cfg)
  unfolding conflicts operator_row
  conflicts-Succeeds cfg o h = record {
    origin = ground (arith, h, ==_iff o.origin cfg.origin);
    relay_key_id = ground (arith, h, ==_iff o.relay_key_id cfg.key_id);
    revision = ground (arith, h);
    same = λ e. ground (
      arith,
      h,
      e,
      ==_iff o.revision (revision cfg),
      ==_iff o.disclosure_hash (object_hash cfg.privacy),
    );
  }

  register_row-ok :
      (cfg : RelayConfig) (w w' : World)
      → register_row cfg w ≡ (ok tt, w')
      → (conflicts cfg w.operator ≡ false) × (w'.operator ≡ some (operator_row cfg))
  unfolding register_row
  register_row-ok cfg w w' h =
      let b = bind-ok (raise_barrier cfg) _ w h in
      let kept = raise_barrier-operator cfg w b.world b.first in
      let old = b.world.operator in
      let b' = bind-ok (fail_if (conflicts cfg old) invalid_field) _ b.world b.rest in
      let (free, same) = fail_if-ok (conflicts cfg old) invalid_field b.world b'.first in
      let written : w'.operator ≡ some (updated_operator cfg old) =
        ap (λ s. s.1.operator) (sym b'.rest) in
      (ap (conflicts cfg) (sym kept) ∙ free, written ∙ ap some (updated-row cfg old free))

  -- A start whose first transaction succeeds leaves this configuration's row, which succeeds any row
  -- that was there; a start that it refuses changes nothing.
  pub register_operator-cases :
      (cfg : RelayConfig) (w : World)
      → ((w' : World)
          → register_operator cfg w ≡ (ok tt, w')
          → (w'.operator ≡ some (operator_row cfg))
            × ((o : OperatorRow) → w.operator ≡ some o → Succeeds o (operator_row cfg)))
        × ((e : ApiError) (w' : World) → register_operator cfg w ≡ (err e, w') → w'.db ≡ w.db)
  unfolding register_operator transaction
  register_operator-cases cfg w = (
    λ w' h.
        let (free, row) = register_row-ok cfg w w' (transaction-ok (register_row cfg) w h) in
        (row, λ o e. conflicts-Succeeds cfg o (subst (λ p. conflicts cfg p ≡ false) e free)),
    λ e w' h. ground (arith, h),
  )
