-- ===== src/Store/Transparency/Links.antt =====
-- What a successful entry in the transparency log does (`transparency` of src/api/store.rs).
use palla_sync.Prelude.{
  ℕ, ◌+◌, false, Option, some, ◌≡◌, String, is_some, pair_eq, text_eq, nat_eq, find_row, add_row,
  leb, arith,
}
use palla_sync.Error.{ok}
use palla_sync.Crypto.Primitives.{External}
use palla_sync.Crypto.{sign_relay}
use palla_sync.Crypto.Jcs.{max_integer}
use palla_sync.Db.{World, Chain, SeqKey}
use palla_sync.Config.{RelayConfig}
use palla_sync.Store.Hashes.{link_hash, transparency_link}
use palla_sync.Store.Transparency.{
  Recorded, recorded_chain, transparency_entry, transparency_signing, insert_transparency,
  transparency,
}

abbrev pub transparency_key : Chain → SeqKey
transparency_key c = (c.chain_id, (c.transparency_id, c.transparency_index + 1))

module _ ⦃x : External⦄ where
  -- What has happened when `transparency` returns: there was room, the entry is signed and linked to
  -- the hash before it, its row is new, and nothing else but a reading of the clock has changed.
  pub record Records (c : Chain) (cfg : RelayConfig) (op digest : String) (seq : Option ℕ)
      (code : Option String) (w : World) (t : Recorded) (w' : World) : Type 0 where
    pub room : leb max_integer c.transparency_index ≡ false
    pub signed :
        sign_relay cfg.key
          (transparency_entry c cfg (c.transparency_index + 1) op digest seq (w.time w.reads) code)
          transparency_signing
        ≡ some t.entry
    pub linked :
        t.hash ≡ link_hash c.transparency_hash (c.transparency_index + 1) t.entry transparency_link
    pub chain : t.chain ≡ recorded_chain c t.hash
    pub fresh : is_some (find_row (transparency_key c) w.transparency) ≡ false
    pub world : w' ≡ record w {
      reads = w.reads + 1;
      db = record w.db {
        transparency =
            add_row (transparency_key c) (record { entry = t.entry; hash = t.hash }) w.transparency;
      };
    }

  pub transparency-ok :
      (c : Chain) (cfg : RelayConfig) (op digest : String) (seq : Option ℕ) (code : Option String)
      (w : World) (t : Recorded) (w' : World)
      → transparency c cfg op digest seq code w ≡ (ok t, w')
      → Records c cfg op digest seq code w t w'
  unfolding transparency insert_transparency
  transparency-ok c cfg op digest seq code w t w' h = ground arith
