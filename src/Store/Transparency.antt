-- ===== src/Store/Transparency.antt =====
-- The transparency log (`transparency` of src/api/store.rs): one signed and linked entry for each
-- acceptance, rejection, pruning, deletion and migration.
pub mod Links
use palla_sync.Prelude.{
  ℕ, suc, ◌+◌, Bool, Option, none, some, List, [], ◌∷◌, String, leb, is_some, if◌then◌else◌,
  pair_eq, text_eq, nat_eq, find_row, add_row, ◌++◌,
}
use palla_sync.Json.{Value, null, num, str, object, opt_num, opt_str}
use palla_sync.Error.{storage_unavailable, internal_error}
use palla_sync.Crypto.Primitives.{External}
use palla_sync.Crypto.{codes, sign_relay}
use palla_sync.Crypto.Jcs.{max_integer}
use palla_sync.Db.{SeqKey, Chain, TransparencyRow, Db}
use palla_sync.Db.Action.{Action, ◌>>=◌, ◌>>◌, pure, fail_if, require, now, insert_unless}
use palla_sync.Config.{RelayConfig}
use palla_sync.Store.Hashes.{link_hash, transparency_link}

-- What `transparency` returns, with the chain that it has changed.
pub record Recorded : Type 0 where
  pub chain : Chain
  pub entry : Value
  pub hash : String

abbrev pub transparency_signing : List ℕ
transparency_signing = codes "PALLASYNC-TRANSPARENCY-ENTRY-v3" ++ 0 ∷ []

-- The entry before it is signed, number `i`.
unfoldable pub transparency_entry :
    Chain → RelayConfig → ℕ → String → String → Option ℕ → ℕ → Option String → Value
transparency_entry c cfg i op digest seq time code = object (
    ("type", str "PALLASYNC-TRANSPARENCY-ENTRY-v3")
    ∷ ("version", str "3.0")
    ∷ ("transparency_id", str c.transparency_id)
    ∷ ("entry_index", num i)
    ∷ ("chain_id", str c.chain_id)
    ∷ ("log_id", str c.log_id)
    ∷ ("relay_key_id", str cfg.key_id)
    ∷ ("operation", str op)
    ∷ ("object_hash", str digest)
    ∷ ("relay_seq", opt_num seq)
    ∷ ("resulting_head_hash", str c.head_hash)
    ∷ ("previous_transparency_hash", str c.transparency_hash)
    ∷ ("timestamp", num time)
    ∷ ("code", opt_str code)
    ∷ [])

-- The chain behind a new entry.
abbrev pub recorded_chain : Chain → String → Chain
recorded_chain c hash = record c {
  transparency_index = c.transparency_index + 1;
  transparency_hash = hash;
}

module _ ⦃x : External⦄ where
  -- INSERT INTO v3_transparency
  unfoldable pub insert_transparency : Chain → Value → String → Action (Unit {0})
  insert_transparency c entry hash w =
      let key : SeqKey = (c.chain_id, (c.transparency_id, c.transparency_index + 1)) in
      insert_unless (is_some (find_row key w.transparency))
        (λ db. record db {
          transparency = add_row key (record { entry = entry; hash = hash }) db.transparency;
        })
        w

  unfoldable pub transparency :
      Chain → RelayConfig → String → String → Option ℕ → Option String → Action Recorded
  transparency c cfg op digest seq code = do
    fail_if (leb max_integer c.transparency_index) storage_unavailable
    time ← now
    let i = c.transparency_index + 1
    let unsigned = transparency_entry c cfg i op digest seq time code
    entry ← require (sign_relay cfg.key unsigned transparency_signing) internal_error
    let hash = link_hash c.transparency_hash i entry transparency_link
    insert_transparency c entry hash
    pure (record { chain = recorded_chain c hash; entry = entry; hash = hash })
