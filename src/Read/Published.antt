-- ===== src/Read/Published.antt =====
-- A page of the transparency log (`transparency` of src/api/read.rs).
use palla_sync.Db.Action.{◌>>=◌, ◌>>◌, Action, fail_if, pure, gets, lift, require}
use palla_sync.Json.{Value, object, array, n, num, str, opt_str, bool, opt_num}
use palla_sync.Json.{opt_num}
use palla_sync.Prelude.{
  text_eq, pair_eq, nat_eq, Table, Option, List, String, ℕ, find_row, Bool, some, ◌∷◌, [], none,
  ◌+◌, if◌then◌else◌, ltb, true, ◌==◌, is_empty, false, ◌||◌, map_to, ◌&&◌, nat_eq, not, ◌/=◌,
  is_some,
}
use palla_sync.Db.{TransparencyRow, Chain, Db}
use palla_sync.Crypto.Primitives.{External}
use palla_sync.Read.{Page, allowed, query, decimal, Query, opt_decimal}
use palla_sync.Read.Cursors.{next_cursor, page}
use palla_sync.Read.Listing.{order_rows, limit_rows, rows_between, item_size, fits}
use palla_sync.Store.Hashes.{initial_hash, transparency_context}
use palla_sync.Config.{RelayConfig}
use palla_sync.Error.{transparency_range_unavailable, invalid_field, transparency_id_mismatch}
use palla_sync.Wire.Types.{is_uuid}
use palla_sync.Crypto.Jcs.{max_integer}

abbrev transparency_parameters : List String
transparency_parameters =
    "transparency_id" ∷ "after_index" ∷ "through_index" ∷ "cursor" ∷ "limit" ∷ []

abbrev pub entries_of : Table ℕ TransparencyRow → List Value
entries_of [] = []
entries_of ((k, r) ∷ rows) = r.entry ∷ entries_of rows

abbrev at_most : Option ℕ → ℕ → ℕ
at_most none index = index
at_most (some through) index = through

abbrev hash_of : TransparencyRow → String
hash_of r = r.hash

module _ ⦃x : External⦄ where
  -- The loop over the entries, from their bytes and the position so far.
  unfoldable pub fill : ℕ → ℕ → List Value → List Value × ℕ
  fill bytes position [] = ([], position)
  fill bytes position (v ∷ vs) =
      let (items, last) = fill (bytes + item_size v) (n v "entry_index") vs in
      if fits bytes v then (v ∷ items, last) else ([], position)

  -- A first page is anchored at a published head.
  unfoldable pub anchor_page : Chain → String → ℕ → Option ℕ → Page → Action Page
  unfolding find_row
  anchor_page c id after through p =
      let last = at_most through c.transparency_index in
      fail_if (ltb last after || ltb c.transparency_index last) transparency_range_unavailable
      >> gets (λ db. find_row (c.chain_id, (id, last)) db.heads)
      >>= λ found. require found transparency_range_unavailable >>= λ head.
          pure (record p { extra = head; position = after })

  -- The hash at the index that the page begins behind.
  unfoldable pub anchor_hash : Chain → RelayConfig → String → ℕ → Action String
  unfolding initial_hash find_row
  anchor_hash c cfg id anchor =
      if anchor == 0
      then pure (initial_hash transparency_context c.chain_id id (some cfg.key_id))
      else (gets (λ db. map_to hash_of (find_row (c.chain_id, (id, anchor)) db.transparency))
          >>= λ found. require found transparency_range_unavailable)

  unfoldable pub published_rows : Chain → String → Page → ℕ → Db → List Value
  unfolding order_rows limit_rows rows_between
  published_rows c id p end db =
      limit_rows p.limit
        (entries_of (order_rows (rows_between c.chain_id id p.position end db.transparency)))

  abbrev published : Page → List Value → ℕ → String → Bool → Option String → Value
  published p items anchor hash more next = object (
      ("items", array items)
      ∷ ("head", p.extra)
      ∷ ("anchor_index", num anchor)
      ∷ ("anchor_hash", str hash)
      ∷ ("next_cursor", opt_str next)
      ∷ ("has_more", bool more)
      ∷ [])

  -- The rest of `transparency`, behind its page.
  unfoldable pub published_page : Chain → RelayConfig → String → Page → Action Value
  unfolding anchor_hash published_rows fill next_cursor
  published_page c cfg id p = do
    hash ← anchor_hash c cfg id p.position
    let end = n p.extra "entry_index"
    rows ← gets (published_rows c id p end)
    let (items, position) = fill 0 p.position rows
    fail_if (is_empty items && ltb position end) transparency_range_unavailable
    let more = ltb position end
    next ← next_cursor cfg (record p { position = position }) more
    pure (published p items p.position hash more next)

  abbrev pub begin_page : Bool → Chain → String → ℕ → Option ℕ → Page → Action Page
  begin_page true c id after through p = pure p
  begin_page false c id after through p = anchor_page c id after through p

  abbrev or_zero : Option ℕ → ℕ
  or_zero none = 0
  or_zero (some k) = k

  -- `transparency`
  unfoldable pub published_log : Chain → RelayConfig → Query → Value → Action Value
  unfolding published_page anchor_page page allowed query decimal
  published_log c cfg q versions = do
    lift (allowed q transparency_parameters)
    id ← require (query q "transparency_id") invalid_field
    fail_if (not (is_uuid id)) invalid_field
    fail_if (id /= c.transparency_id) transparency_id_mismatch
    from ← lift (opt_decimal (query q "after_index") 0 max_integer)
    let after = or_zero from
    through ← lift (opt_decimal (query q "through_index") 0 max_integer)
    first ←
        page c cfg "transparency" q
          (object (
            ("transparency_id", str id)
            ∷ ("after_index", num after)
            ∷ ("through_index", opt_num through)
            ∷ []))
          versions
    p ← begin_page (is_some (query q "cursor")) c id after through first
    published_page c cfg id p
