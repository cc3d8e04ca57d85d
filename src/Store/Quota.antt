-- ===== src/Store/Quota.antt =====
-- The space that a chain takes, its limit, and `save` and `publish_notice` of src/api/store.rs. Sizes
-- are those of the JSON texts in bytes and of the other columns in characters; the sum stays below
-- SQLite's 64 bits.
pub mod Documented
pub mod Laws
use palla_sync.Prelude.{
  ℕ, ◌+◌, Bool, true, false, ◌&&◌, ◌||◌, Option, none, some, List, [], ◌∷◌, ◌++◌, String, ◌==◌, ltb,
  text_eq, pair_eq, nat_eq, is_some, is_none, length, Table, find_row, add_row, upsert,
  if◌then◌else◌,
}
use palla_sync.Json.{Value, num, str, object, opt_num, opt_str, ◌!◌, value_beq}
use palla_sync.Error.{with_context, failed, quota_exceeded, internal_error}
use palla_sync.Crypto.Primitives.{External}
use palla_sync.Crypto.{codes, sign_relay, object_hash}
use palla_sync.Db.{
  kind_eq, Db, World, Chain, SeqKey, ObjectKey, ObjectRow, LogRow, ReceiptRow, TransparencyRow,
  OutcomeRow, OfferRow, CursorRow,
}
use palla_sync.Db.Action.{Action, ◌>>=◌, ◌>>◌, pure, fail_with, gets, modify, require, now, new_id}
use palla_sync.Config.{RelayConfig}
use palla_sync.Store.Hashes.{parameters_hash, epoch_hash}
use palla_sync.Store.Transparency.{Recorded, transparency}

-- The sum of a column over the rows of a table.
unfoldable pub sum_rows : {K V : Type 0} → (K → V → ℕ) → Table K V → ℕ
sum_rows f [] = 0
sum_rows f ((k, v) ∷ t) = f k v + sum_rows f t

-- INSERT OR IGNORE INTO v3_heads
unfoldable pub publish_head : Chain → Value → Db → Db
publish_head c h db =
    let key : SeqKey = (c.chain_id, (c.transparency_id, c.transparency_index)) in
    if is_some (find_row key db.heads) then db else record db { heads = add_row key h db.heads }

abbrev pub text_length : String → ℕ
text_length t = length (codes t)

module _ ⦃x : External⦄ where
  abbrev pub text_size : Value → ℕ
  text_size v = length (x.canonicalize_json v)

  -- A NULL in a sum of columns makes the sum NULL, and SUM leaves it out.
  abbrev pub object_size : String → ObjectKey → ObjectRow → ℕ
  object_size c k r = elim r.body [
    | none ↦ 0
    | some v ↦ if k.0 == c then text_size v + text_length k.1.1 + text_length r.object_hash else 0
  ]

  abbrev pub log_size : String → SeqKey → LogRow → ℕ
  log_size c k r = elim r.entry [
    | none ↦ 0
    | some v ↦ if k.0 == c then text_size v + text_length r.head_hash else 0
  ]

  abbrev pub receipt_size : String → ObjectKey → ReceiptRow → ℕ
  receipt_size c k r = if k.0 == c then text_size r.receipt else 0

  abbrev pub transparency_size : String → SeqKey → TransparencyRow → ℕ
  transparency_size c k r = if k.0 == c then text_size r.entry + text_length r.hash else 0

  abbrev pub head_size : String → SeqKey → Value → ℕ
  head_size c k v = if k.0 == c then text_size v else 0

  abbrev pub outcome_size : String → String × (String × String) → OutcomeRow → ℕ
  outcome_size c k r = if k.0 == c then text_size r.response else 0

  abbrev pub cursor_size : String → String → CursorRow → ℕ
  cursor_size c k r = if r.chain_id == c then text_size r.state else 0

  abbrev pub opt_size : Option Value → ℕ
  opt_size none = 0
  opt_size (some v) = text_size v

  abbrev pub offer_size : String → String × String → OfferRow → ℕ
  offer_size c k r = if k.0 == c then text_size r.offer + opt_size r.request else 0

  -- `used`
  unfoldable pub used : Db → String → ℕ
  used db c =
      sum_rows (object_size c) db.objects
      + sum_rows (log_size c) db.log
      + sum_rows (receipt_size c) db.receipts
      + sum_rows (transparency_size c) db.transparency
      + sum_rows (head_size c) db.heads
      + sum_rows (outcome_size c) db.outcomes
      + sum_rows (cursor_size c) db.cursors
      + sum_rows (offer_size c) db.offers

  abbrev pub exceeds : Option ℕ → ℕ → Bool
  exceeds none u = false
  exceeds (some max) u = ltb max u

  abbrev check_quota : Bool → ℕ → RelayConfig → Action (Unit {0})
  check_quota b u cfg =
      if b
      then fail_with (
          with_context (failed quota_exceeded)
            (object (("used_bytes", num u) ∷ ("max_bytes", opt_num cfg.max_bytes) ∷ [])))
      else pure tt

  unfoldable pub quota : String → RelayConfig → Action (Unit {0})
  quota c cfg = do u ← gets (λ db. used db c); check_quota (exceeds cfg.max_bytes u) u cfg

  abbrev pub head_signing : List ℕ
  head_signing = codes "PALLASYNC-TRANSPARENCY-HEAD-v3" ++ 0 ∷ []

  unfoldable pub transparency_head : Chain → RelayConfig → ℕ → Value
  transparency_head c cfg time = object (
      ("type", str "PALLASYNC-TRANSPARENCY-HEAD-v3")
      ∷ ("version", str "3.0")
      ∷ ("chain_id", str c.chain_id)
      ∷ ("log_id", str c.log_id)
      ∷ ("relay_key_id", str cfg.key_id)
      ∷ ("transparency_id", str c.transparency_id)
      ∷ ("entry_index", num c.transparency_index)
      ∷ ("transparency_hash", str c.transparency_hash)
      ∷ ("head_seq", num c.head_seq)
      ∷ ("head_hash", str c.head_hash)
      ∷ ("parameters_hash", str (parameters_hash c))
      ∷ ("epoch_hash", str (epoch_hash c))
      ∷ ("min_available_seq", num c.min_available_seq)
      ∷ ("timestamp", num time)
      ∷ [])

  unfoldable pub save : Chain → RelayConfig → Action (Unit {0})
  save c cfg = do
    modify λ db. record db { chains = upsert c.chain_id c db.chains }
    time ← now
    h ← require (sign_relay cfg.key (transparency_head c cfg time) head_signing) internal_error
    modify (publish_head c h)
    quota c.chain_id cfg

  -- Whether the notice in force says what the configuration says.
  abbrev is_announced : Option Value → RelayConfig → Bool
  is_announced none cfg = is_none cfg.shutdown_at_ms && is_none cfg.migration_origin
  is_announced (some old) cfg =
      value_beq (old ! "shutdown_at_ms") (opt_num cfg.shutdown_at_ms)
      && value_beq (old ! "migration_origin") (opt_str cfg.migration_origin)

  abbrev new_notice : RelayConfig → String → ℕ → Value
  new_notice cfg id time = object (
      ("shutdown_at_ms", opt_num cfg.shutdown_at_ms)
      ∷ ("migration_origin", opt_str cfg.migration_origin)
      ∷ ("notice_id", str id)
      ∷ ("server_time_ms", num time)
      ∷ [])

  unfoldable pub announce : Chain → RelayConfig → Action Chain
  announce c cfg = do
    id ← new_id
    time ← now
    let notice = new_notice cfg id time
    t ← transparency c cfg "migrate" (object_hash notice) none none
    modify λ db. record db { notices = upsert c.chain_id notice db.notices }
    pure t.chain

  -- `publish_notice`, with the chain that it has changed.
  unfoldable pub publish_notice : Chain → RelayConfig → Action Chain
  unfolding announce
  publish_notice c cfg = do
    old ← gets (λ db. find_row c.chain_id db.notices)
    if is_announced old cfg then pure c else announce c cfg
