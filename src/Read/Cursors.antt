-- ===== src/Read/Cursors.antt =====
-- Pages and their cursors (`page`, `cursor` and `finish` of src/api/read.rs). The ids of the newest
-- rows of the histories, which a first page keeps, are an argument.
use palla_sync.Prelude.{
  find_row, ℕ, String, Option, Bool, List, if◌then◌else◌, leb, some, ◌∷◌, [], length, is_some, none,
  add_row, text_eq, ◌&&◌, not, ◌++◌, ◌+◌, ◌/=◌, ◌||◌, ltb, nat_eq,
}
use palla_sync.Crypto.Primitives.{External}
use palla_sync.Store.Quota.{quota}
use palla_sync.Config.{RelayConfig, limits}
use palla_sync.Read.{Page, query, decimal, Value, Query, object, Result, codes, opt_decimal}
use palla_sync.Read.Cut.{chain_value, read_chain}
use palla_sync.Db.{Chain, CursorRow}
use palla_sync.Store.Hashes.{generation}
use palla_sync.Json.{
  ◌!◌, n, object, Value, str, array, set_member, num, opt_str, bool, value_beq, s,
}
use palla_sync.Db.Action.{
  ◌>>=◌, ◌>>◌, Action, insert_unless, lift, require, fail_if, new_id, pure, now, gets,
}
use palla_sync.Error.{
  Result, ok, err, cursor_invalid, cursor_expired, internal_error, log_id_mismatch,
  transparency_id_mismatch,
}
use palla_sync.Crypto.{codes, decode}
use palla_sync.Crypto.Jcs.{max_integer}

module _ ⦃x : External⦄ where
  abbrev page_max : RelayConfig → ℕ
  page_max cfg = n (limits cfg) "page_limit"

  abbrev default_limit : RelayConfig → ℕ
  default_limit cfg = if leb 200 (page_max cfg) then 200 else page_max cfg

  abbrev or_else : ℕ → Option ℕ → ℕ
  or_else d none = d
  or_else d (some v) = v

  abbrev settled : (Option ℕ → ℕ) → Result (Option ℕ) → Result ℕ
  settled f (ok o) = ok (f o)
  settled f (err e) = err e

  unfoldable pub page_limit : RelayConfig → Query → Result ℕ
  unfolding query decimal
  page_limit cfg q =
      settled (or_else (default_limit cfg)) (opt_decimal (query q "limit") 1 (page_max cfg))

  abbrev pub binding_of : RelayConfig → String → Value → Value
  binding_of cfg resource filters =
      object (("origin", str cfg.origin) ∷ ("resource", str resource) ∷ ("filters", filters) ∷ [])

  -- A first page.
  unfoldable pub first_page : Chain → String → Query → Value → Value → ℕ → Action Page
  unfolding query decimal
  first_page c resource q filters versions limit = do
    after ← lift (opt_decimal (query q "after_seq") 0 max_integer)
    time ← now
    pure (record {
      cut = c;
      position = or_else 0 after;
      key = "";
      limit = limit;
      resource = resource;
      filters = filters;
      expires = time + 86400000;
      extra = versions;
    })

  -- A text that decodes is ASCII, so its length in bytes is that in characters.
  abbrev pub is_token : String → Bool
  is_token token = leb (length (codes token)) 2048 && is_some (decode token none)

  -- What the state of a cursor says, for the chain as it is now. A state that holds no chain, which
  -- `cursor` does not write, would be a panic.
  unfoldable pub resume : Chain → String → Value → ℕ → CursorRow → Action Page
  unfolding read_chain generation
  resume c resource filters limit row = do
    cut ← require (read_chain (row.state ! "cut")) internal_error
    fail_if ((cut.log_id /= c.log_id) || (generation cut /= generation c)) log_id_mismatch
    fail_if (cut.transparency_id /= c.transparency_id) transparency_id_mismatch
    pure (record {
      cut = cut;
      position = n row.state "position";
      key = s row.state "key";
      limit = limit;
      resource = resource;
      filters = filters;
      expires = row.expires_at_ms;
      extra = row.state ! "extra";
    })

  unfoldable pub next_page : Chain → RelayConfig → String → Value → ℕ → String → Action Page
  unfolding resume find_row
  next_page c cfg resource filters limit token = do
    fail_if (not (is_token token)) cursor_invalid
    found ← gets (λ db. find_row token db.cursors)
    row ← require found cursor_invalid
    fail_if
        ((row.chain_id /= c.chain_id)
          || not (value_beq row.binding (binding_of cfg resource filters)))
        cursor_invalid
    time ← now
    fail_if (ltb row.expires_at_ms time) cursor_expired
    resume c resource filters limit row

  abbrev pub page_at :
      Chain → RelayConfig → String → Query → Value → Value → ℕ → Option String → Action Page
  page_at c cfg resource q filters versions limit none =
      first_page c resource q filters versions limit
  page_at c cfg resource q filters versions limit (some token) =
      next_page c cfg resource filters limit token

  -- `page`
  unfoldable pub page : Chain → RelayConfig → String → Query → Value → Value → Action Page
  unfolding page_limit query
  page c cfg resource q filters versions = do
    limit ← lift (page_limit cfg q)
    fail_if (is_some (query q "cursor") && is_some (query q "after_seq")) cursor_invalid
    page_at c cfg resource q filters versions limit (query q "cursor")

  -- `as_bytes` of a new UUID
  abbrev pub uuid_bytes : String → List ℕ
  uuid_bytes id = elim (x.parse_uuid id) [ none ↦ [] | some u ↦ u.bytes ]

  unfoldable pub cursor_row : RelayConfig → Page → CursorRow
  unfolding chain_value object
  cursor_row cfg p = record {
    chain_id = p.cut.chain_id;
    binding = binding_of cfg p.resource p.filters;
    state = object (
        ("cut", chain_value p.cut)
        ∷ ("position", num p.position)
        ∷ ("key", str p.key)
        ∷ ("extra", p.extra)
        ∷ []);
    expires_at_ms = p.expires;
  }

  -- INSERT INTO v3_cursors
  unfoldable pub insert_cursor : String → CursorRow → Action (Unit {0})
  insert_cursor token row w =
      insert_unless (is_some (find_row token w.cursors))
        (λ db. record db { cursors = add_row token row db.cursors }) w

  unfoldable pub store_cursor : RelayConfig → Page → String → Action String
  store_cursor cfg p token =
      insert_cursor token (cursor_row cfg p) >> (quota p.cut.chain_id cfg >> pure token)

  -- `cursor`
  unfoldable pub cursor : RelayConfig → Page → Action String
  unfolding store_cursor
  cursor cfg p = do
    first ← new_id
    second ← new_id
    store_cursor cfg p (x.encode (uuid_bytes first ++ uuid_bytes second))

  unfoldable pub next_cursor : RelayConfig → Page → Bool → Action (Option String)
  unfolding cursor
  next_cursor cfg p more = if more then (cursor cfg p >>= λ t. pure (some t)) else pure none

  abbrev listing : Page → List Value → Bool → Option String → Value
  listing p items more next = object (
      ("items", array items)
      ∷ ("next_cursor", opt_str next)
      ∷ ("has_more", bool more)
      ∷ ("log_id", str p.cut.log_id)
      ∷ ("generation", num (generation p.cut))
      ∷ ("head_seq", num p.cut.head_seq)
      ∷ [])

  -- `finish`
  unfoldable pub finish : RelayConfig → Page → List Value → Bool → Bool → Action Value
  unfolding next_cursor object set_member generation
  finish cfg p items more log = do
    next ← next_cursor cfg p more
    let v = listing p items more next
    let headed = set_member v "head_hash" (str p.cut.head_hash)
    pure (if log then set_member headed "scan_through_seq" (num p.position) else v)
