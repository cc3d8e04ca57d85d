-- ===== src/Routing/Reading.antt =====
-- A route of GET (src/api/sync.rs, src/api/read.rs) changes nothing but the cursors.
pub mod Routes
use palla_sync.Read.Log.{log as read_log, log_page, LogRoute}
use palla_sync.Db.{kind_eq, Db, Chain, CursorRow}
use palla_sync.Prelude.{
  text_eq, pair_eq, nat_eq, Bool, ◌≡◌, String, ℕ, Option, arith, true, some, false, none,
}
use palla_sync.Crypto.Primitives.{External}
use palla_sync.Read.Cursors.{
  insert_cursor, first_page, next_cursor, finish, page, cursor, next_page, store_cursor, resume,
  page_at,
}
use palla_sync.Read.Published.{published_log, published_page, anchor_page, anchor_hash, begin_page}
use palla_sync.Routing.Dispatch.{Handlers}
use palla_sync.Store.Quota.{quota}
use palla_sync.Auth.{Auth}
use palla_sync.Config.{RelayConfig}
use palla_sync.Read.{Page, Query}
use palla_sync.Db.Keeps.{Keeps, keeps_rules}
use palla_sync.Routing.Endpoint.{Route}
use palla_sync.Json.{Value}

-- Only cursors were added or removed.
abbrev pub IsRead : Db → Db → Type 0
IsRead old db = db ≡ record old { cursors = db.cursors }

-- The handlers of reading routes read.
pub record AreReading (old : Db) (handlers : Handlers) : Type 0 where
  pub objects :
      (c : Chain) (auth : Auth) (route : Route) (param : String) (q : Query)
      → Keeps (IsRead old) (handlers.objects c auth route param q)
  pub requests :
      (c : Chain) (auth : Auth) (q : Query) → Keeps (IsRead old) (handlers.requests c auth q)
  pub export_chain :
      (c : Chain) (auth : Auth) (q : Query) → Keeps (IsRead old) (handlers.export_chain c auth q)

module _ ⦃x : External⦄ (old : Db) where
  insert_cursor-IsRead :
      (token : String) (row : CursorRow) → Keeps (IsRead old) (insert_cursor token row)
  unfolding insert_cursor
  insert_cursor-IsRead token row = record { at = λ w h. ground (arith, h) }

  quota-IsRead : (c : String) (cfg : RelayConfig) → Keeps (IsRead old) (quota c cfg)
  unfolding quota
  quota-IsRead c cfg = search keeps_rules

  next_cursor-IsRead :
      (cfg : RelayConfig) (p : Page) (more : Bool) → Keeps (IsRead old) (next_cursor cfg p more)
  unfolding next_cursor cursor store_cursor
  next_cursor-IsRead cfg p more = search (keeps_rules, insert_cursor-IsRead, quota-IsRead) depth 16

  page_at-IsRead :
      (c : Chain) (cfg : RelayConfig) (resource : String) (q : Query) (filters versions : Value)
      (limit : ℕ) (token : Option String)
      → Keeps (IsRead old) (page_at c cfg resource q filters versions limit token)
  unfolding first_page next_page resume
  page_at-IsRead c cfg resource q filters versions limit none = search keeps_rules depth 16
  page_at-IsRead c cfg resource q filters versions limit (some token) = search keeps_rules depth 24

  page-IsRead :
      (c : Chain) (cfg : RelayConfig) (resource : String) (q : Query) (filters versions : Value)
      → Keeps (IsRead old) (page c cfg resource q filters versions)
  unfolding page
  page-IsRead c cfg resource q filters versions = search (keeps_rules, page_at-IsRead)

  log-IsRead :
      (c : Chain) (cfg : RelayConfig) (auth : Auth) (route : LogRoute) (q : Query)
      (versions : Value)
      → Keeps (IsRead old) (read_log c cfg auth route q versions)
  unfolding read_log log_page finish
  log-IsRead c cfg auth route q versions =
      search (keeps_rules, page-IsRead, next_cursor-IsRead) depth 24

  anchor_page-IsRead :
      (c : Chain) (id : String) (after : ℕ) (through : Option ℕ) (p : Page)
      → Keeps (IsRead old) (anchor_page c id after through p)
  unfolding anchor_page
  anchor_page-IsRead c id after through p = search keeps_rules depth 16

  begin_page-IsRead :
      (b : Bool) (c : Chain) (id : String) (after : ℕ) (through : Option ℕ) (p : Page)
      → Keeps (IsRead old) (begin_page b c id after through p)
  begin_page-IsRead true c id after through p = search keeps_rules
  begin_page-IsRead false c id after through p = anchor_page-IsRead c id after through p

  published_page-IsRead :
      (c : Chain) (cfg : RelayConfig) (id : String) (p : Page)
      → Keeps (IsRead old) (published_page c cfg id p)
  unfolding published_page anchor_hash
  published_page-IsRead c cfg id p = search (keeps_rules, next_cursor-IsRead) depth 24

  published_log-IsRead :
      (c : Chain) (cfg : RelayConfig) (q : Query) (versions : Value)
      → Keeps (IsRead old) (published_log c cfg q versions)
  unfolding published_log
  published_log-IsRead c cfg q versions =
      search (keeps_rules, page-IsRead, begin_page-IsRead, published_page-IsRead) depth 32
