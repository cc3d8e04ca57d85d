-- ===== src/Store/Linked/Transparency.antt =====
-- `transparency` of src/api/store.rs extends the transparency log.
use palla_sync.Prelude.{
  ℕ, Option, some, String, ◌≡◌, find_row, pair_eq, text_eq, nat_eq, arith, beq_self, ==_iff, subst,
  sym,
}
use palla_sync.Error.{ok}
use palla_sync.Crypto.Primitives.{External}
use palla_sync.Db.{LogRow, Chain, World}
use palla_sync.Config.{RelayConfig}
use palla_sync.Store.Transparency.{Recorded, transparency}
use palla_sync.Store.Transparency.Links.{transparency-ok, Records, transparency_key}
use palla_sync.Store.Linked.{link, transparency_rows, HasLinkedTransparency}
use palla_sync.Store.Linked.Kept.{IsLinked-grows}

module _ ⦃x : External⦄ (c : Chain) (cfg : RelayConfig) (op digest : String) (seq : Option ℕ)
    (code : Option String) (w : World) (t : Recorded) (w' : World) where
  transparency-grows :
      Records c cfg op digest seq code w t w'
      → (i : ℕ) (r : LogRow) → transparency_rows w.db c i ≡ some r
      → transparency_rows w'.db c i ≡ some r
  unfolding find_row
  transparency-grows done i r h =
      let key = transparency_key c in
      ground (arith, done.world, done.fresh, ==_iff key (c.chain_id, (c.transparency_id, i)))

  -- A successful `transparency` extends a transparency log that is linked to its head.
  pub transparency-HasLinkedTransparency :
      (key : String)
      → transparency c cfg op digest seq code w ≡ (ok t, w')
      → HasLinkedTransparency key w.db c
      → HasLinkedTransparency key w'.db t.chain
  unfolding find_row
  transparency-HasLinkedTransparency key h linked =
      let done = transparency-ok c cfg op digest seq code w t w' h in
      subst (HasLinkedTransparency key w'.db) (sym done.chain) (
        link (record { entry = some t.entry; head_hash = t.hash })
          (IsLinked-grows (transparency-grows done) linked)
          (ground (arith, done.world, beq_self (transparency_key c)))
          (λ e p. ground (arith, p, done.linked)))
