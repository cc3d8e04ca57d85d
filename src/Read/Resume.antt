-- ===== src/Read/Resume.antt =====
-- A cursor (src/api/read.rs) leads back to the page that it was made of.
use palla_sync.Json.{◌!◌, Value, value_beq}
use palla_sync.Prelude.{
  ◌≡◌, refl, ℕ, ◌≡◌, arith, ==_iff, String, find_row, text_eq, some, nat_eq, true, ◌+◌, false, Bool,
  ltb, ◌/=◌, ◌||◌, not, ◌≤◌, ◌++◌, none, ◌∙◌,
}
use palla_sync.Crypto.Primitives.{External}
use palla_sync.Read.Cursors.{
  resume, cursor_row, next_page, cursor, is_token, store_cursor, binding_of, insert_cursor,
  uuid_bytes, page, page_limit,
}
use palla_sync.Json.{lookup, get, insert, object, s, n, ◌!◌}
use palla_sync.Db.{Chain, World, CursorRow}
use palla_sync.Config.{RelayConfig}
use palla_sync.Read.{Page, ok, Query, query}
use palla_sync.Store.Hashes.{generation}
use palla_sync.Error.{ok}
use palla_sync.Read.Cut.{read_chain-chain_value}
use palla_sync.Db.Inversion.{bind-ok}
use palla_sync.Store.Quota.{quota}
use palla_sync.Json.Laws.{value_beq_refl}

module _ ⦃x : External⦄ where
  resume-cursor_row :
      (c : Chain) (cfg : RelayConfig) (p : Page) (limit : ℕ) (w : World)
      → p.cut.log_id ≡ c.log_id
      → generation p.cut ≡ generation c
      → p.cut.transparency_id ≡ c.transparency_id
      → resume c p.resource p.filters limit (cursor_row cfg p) w
        ≡ (ok (record p { limit = limit }), w)
  unfolding resume cursor_row lookup get insert object s n ◌!◌
  resume-cursor_row c cfg p limit w l g t = rw (read_chain-chain_value p.cut) (
      ground (
        arith,
        l,
        g,
        t,
        ==_iff p.cut.log_id c.log_id,
        ==_iff (generation p.cut) (generation c),
        ==_iff p.cut.transparency_id c.transparency_id,
      ))

  -- The row of a cursor is another chain's, or it was made for another query.
  abbrev is_foreign : Chain → RelayConfig → String → Value → CursorRow → Bool
  is_foreign c cfg resource filters row =
      (row.chain_id /= c.chain_id) || not (value_beq row.binding (binding_of cfg resource filters))

  next_page-row :
      (c : Chain) (cfg : RelayConfig) (resource : String) (filters : Value) (limit : ℕ)
      (token : String) (row : CursorRow) (w : World)
      → find_row token w.cursors ≡ some row
      → is_token token ≡ true
      → is_foreign c cfg resource filters row ≡ false
      → ltb row.expires_at_ms (w.time w.reads) ≡ false
      → next_page c cfg resource filters limit token w
        ≡ resume c resource filters limit row (record w { reads = w.reads + 1 })
  unfolding next_page
  next_page-row c cfg resource filters limit token row w found valid same fresh =
      rw (valid, found, same, fresh) refl

  cursor_row-IsOwn :
      (c : Chain) (cfg : RelayConfig) (p : Page)
      → p.cut.chain_id ≡ c.chain_id
      → is_foreign c cfg p.resource p.filters (cursor_row cfg p) ≡ false
  unfolding cursor_row
  cursor_row-IsOwn c cfg p same = ground (
    arith,
    same,
    ==_iff p.cut.chain_id c.chain_id,
    value_beq_refl (binding_of cfg p.resource p.filters),
  )

  cursor_row-IsFresh :
      (cfg : RelayConfig) (p : Page) (time : ℕ)
      → time ≤ p.expires
      → ltb (cursor_row cfg p).expires_at_ms time ≡ false
  unfolding cursor_row
  cursor_row-IsFresh cfg p time h = ground (arith, h)

  quota-world :
      (c : String) (cfg : RelayConfig) (w w' : World) {u : Unit {0}}
      → quota c cfg w ≡ (ok u, w')
      → w' ≡ w
  unfolding quota
  quota-world c cfg w w' h = ground (arith, h)

  insert_cursor-found :
      (token : String) (row : CursorRow) (w w' : World) {u : Unit {0}}
      → insert_cursor token row w ≡ (ok u, w')
      → find_row token w'.cursors ≡ some row
  unfolding insert_cursor find_row
  insert_cursor-found token row w w' h = ground (arith, h, ==_iff token token)

  store_cursor-found :
      (cfg : RelayConfig) (p : Page) (made token : String) (w w' : World)
      → store_cursor cfg p made w ≡ (ok token, w')
      → find_row token w'.cursors ≡ some (cursor_row cfg p)
  unfolding store_cursor
  store_cursor-found cfg p made token w w' h =
      let b = bind-ok (insert_cursor made (cursor_row cfg p)) _ w h in
      let b' = bind-ok (quota p.cut.chain_id cfg) _ b.world b.rest in
      let found = insert_cursor-found made (cursor_row cfg p) w b.world b.first in
      let kept = quota-world p.cut.chain_id cfg b.world b'.world b'.first in
      ground (arith, found, kept, b'.rest)

  cursor-found :
      (cfg : RelayConfig) (p : Page) (w w' : World) (token : String)
      → cursor cfg p w ≡ (ok token, w')
      → find_row token w'.cursors ≡ some (cursor_row cfg p)
  unfolding cursor
  cursor-found cfg p w w' token h =
      store_cursor-found cfg p
        (x.encode (uuid_bytes (w.fresh_id w.drawn) ++ uuid_bytes (w.fresh_id (w.drawn + 1)))) token
        (record w { drawn = w.drawn + 1 + 1 }) w' h

  page_at-cursor :
      (c : Chain) (cfg : RelayConfig) (resource : String) (q : Query) (filters versions : Value)
      (limit : ℕ) (token : String) (w : World)
      → query q "cursor" ≡ some token
      → query q "after_seq" ≡ none
      → page_limit cfg q ≡ ok limit
      → page c cfg resource q filters versions w ≡ next_page c cfg resource filters limit token w
  unfolding page
  page_at-cursor c cfg resource q filters versions limit token w given none_after l =
      rw (l, given, none_after) refl

  -- While the cursor of a page is not expired and its chain has neither a new log nor a new generation
  -- nor a new transparency log, a request with that cursor for the same resource and filters continues
  -- that page: with its cut, position, key and versions, and with its own limit.
  pub page-cursor :
      (c : Chain) (cfg : RelayConfig) (p : Page) (q : Query) (versions : Value) (limit : ℕ)
      (token : String) (w₀ w₁ w : World)
      → cursor cfg p w₀ ≡ (ok token, w₁)
      → find_row token w.cursors ≡ find_row token w₁.cursors
      → is_token token ≡ true
      → query q "cursor" ≡ some token
      → query q "after_seq" ≡ none
      → page_limit cfg q ≡ ok limit
      → p.cut.chain_id ≡ c.chain_id
      → p.cut.log_id ≡ c.log_id
      → generation p.cut ≡ generation c
      → p.cut.transparency_id ≡ c.transparency_id
      → w.time w.reads ≤ p.expires
      → page c cfg p.resource q p.filters versions w
        ≡ (ok (record p { limit = limit }), record w { reads = w.reads + 1 })
  page-cursor c cfg p q versions limit token w₀ w₁ w made kept valid given none_after l i log g t
        fresh =
      page_at-cursor c cfg p.resource q p.filters versions limit token w given none_after l
      ∙ next_page-row c cfg p.resource p.filters limit token (cursor_row cfg p) w
          (kept ∙ cursor-found cfg p w₀ w₁ token made) valid (cursor_row-IsOwn c cfg p i)
          (cursor_row-IsFresh cfg p (w.time w.reads) fresh)
      ∙ resume-cursor_row c cfg p limit (record w { reads = w.reads + 1 }) log g t
