-- ===== src/Read/Listing.antt =====
-- The rows of a query in the order of a number, and what fits a page (`fits` of src/api/read.rs).
use palla_sync.Prelude.{
  Table, ℕ, String, List, ◌∷◌, [], Bool, if◌then◌else◌, leb, suc, ◌+◌, ◌==◌, zero, ◌&&◌, ltb,
  text_eq,
}
use palla_sync.Crypto.Primitives.{External}
use palla_sync.Json.{Value}
use palla_sync.Db.{SeqKey}
use palla_sync.Store.Quota.{text_size}
use palla_sync.Read.{page_bytes}

module _ {A : Type 0} where
  unfoldable pub insert_row : ℕ → A → Table ℕ A → Table ℕ A
  insert_row k v [] = (k, v) ∷ []
  insert_row k v ((j, u) ∷ rows) =
      let rest = insert_row k v rows in if leb k j then (k, v) ∷ (j, u) ∷ rows else (j, u) ∷ rest

  -- ORDER BY
  unfoldable pub order_rows : Table ℕ A → Table ℕ A
  unfolding insert_row
  order_rows [] = []
  order_rows ((k, v) ∷ rows) = insert_row k v (order_rows rows)

  -- LIMIT
  unfoldable pub limit_rows : ℕ → List A → List A
  limit_rows zero rows = []
  limit_rows (suc k) [] = []
  limit_rows (suc k) (r ∷ rows) = r ∷ limit_rows k rows

  -- The rows of a log or transparency log behind `after`, up to `through`.
  unfoldable pub rows_between : String → String → ℕ → ℕ → Table SeqKey A → Table ℕ A
  rows_between c log after through [] = []
  rows_between c log after through ((k, r) ∷ rows) =
      let rest = rows_between c log after through rows in
      if (k.0 == c) && (k.1.0 == log) && ltb after k.1.1 && leb k.1.1 through
      then (k.1.1, r) ∷ rest
      else rest

module _ ⦃x : External⦄ where
  -- What an item takes of a page, its comma counted.
  abbrev pub item_size : Value → ℕ
  item_size v = text_size v + 1

  abbrev pub fits : ℕ → Value → Bool
  fits bytes v = leb (bytes + item_size v) page_bytes
