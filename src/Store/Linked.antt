-- ===== src/Store/Linked.antt =====
-- The hash chains of src/api/store.rs: the log and the transparency log as chains of rows that hold
-- the hash of each entry linked to the hash before it.
pub mod Kept
pub mod Transparency
use palla_sync.Prelude.{
  ℕ, ◌+◌, Option, none, some, List, String, ◌≡◌, find_row, pair_eq, text_eq, nat_eq, [],
}
use palla_sync.Json.{Value}
use palla_sync.Crypto.Primitives.{External}
use palla_sync.Db.{LogRow, TransparencyRow, Db, Chain}
use palla_sync.Store.Hashes.{
  initial_hash, link_hash, log_context, transparency_context, transparency_link,
}

-- The rows from 1 to an index are there; each holds the hash that its entry, unless it was removed,
-- gives with the row's index and the hash before it.
pub data IsLinked ⦃x : External⦄ (rows : ℕ → Option LogRow) (context : List ℕ) (start : String)
    : ℕ → String → Type 0 where
  begin : IsLinked rows context start 0 start
  link :
      {seq : ℕ} {prev : String} (row : LogRow)
      → IsLinked rows context start seq prev
      → rows (seq + 1) ≡ some row
      → ((e : Value) → row.entry ≡ some e → row.head_hash ≡ link_hash prev (seq + 1) e context)
      → IsLinked rows context start (seq + 1) row.head_hash

abbrev pub log_rows : Db → Chain → ℕ → Option LogRow
log_rows db c i = find_row (c.chain_id, (c.log_id, i)) db.log

abbrev pub as_log_row : Option TransparencyRow → Option LogRow
as_log_row none = none
as_log_row (some r) = some (record { entry = some r.entry; head_hash = r.hash })

abbrev pub transparency_rows : Db → Chain → ℕ → Option LogRow
transparency_rows db c i =
    as_log_row (find_row (c.chain_id, (c.transparency_id, i)) db.transparency)

-- The log of a chain leads from its first hash to its head.
abbrev pub HasLinkedLog : ⦃x : External⦄ → Db → Chain → Type 0
HasLinkedLog db c =
    IsLinked (log_rows db c) [] (initial_hash log_context c.chain_id c.log_id none) c.head_seq
      c.head_hash

-- The transparency log of a chain leads from its first hash, under the relay's key, to its head.
abbrev pub HasLinkedTransparency : ⦃x : External⦄ → String → Db → Chain → Type 0
HasLinkedTransparency key db c =
    IsLinked (transparency_rows db c) transparency_link
      (initial_hash transparency_context c.chain_id c.transparency_id (some key))
      c.transparency_index c.transparency_hash
