-- ===== src/Read/Log.antt =====
-- A page of the log or of its records (`log` of src/api/read.rs).
use palla_sync.Db.Action.{◌>>=◌, ◌>>◌, lift, gets}
use palla_sync.Json.{◌!◌, n}
use palla_sync.Prelude.{
  Option, String, List, ℕ, Bool, Table, ◌∷◌, [], true, not, false, some, is_none, ◌&&◌, ◌+◌, ◌==◌,
  none, if◌then◌else◌, leb, ◌||◌, is_some, text_eq, ltb, nat_eq, ◌/=◌, ◌-◌, bool_eq,
}
use palla_sync.Crypto.Primitives.{External}
use palla_sync.Json.{Value, object, s, opt_str, opt_num}
use palla_sync.Auth.{Auth, is_admin}
use palla_sync.Read.Cursors.{page, finish}
use palla_sync.Read.{pruned, decimal, Chain, allowed, query, Page, Query, opt_decimal}
use palla_sync.Error.{
  Result, ok, err, throw, envelope_access_denied, filter_not_allowed, invalid_field,
}
use palla_sync.Read.Listing.{order_rows, limit_rows, rows_between, item_size, fits}
use palla_sync.Store.Rows.{bounded_rows}
use palla_sync.Db.{Chain, LogRow, Db}
use palla_sync.Config.{RelayConfig}
use palla_sync.Domain.{is_text}
use palla_sync.Db.Action.{Action}
use palla_sync.Crypto.{decode}
use palla_sync.Store.Quota.{text_size}

-- The routes that read the log.
pub data LogRoute : Type 0 where
  whole_log records_get : LogRoute

abbrev pub route_name : LogRoute → String
route_name whole_log = "log"
route_name records_get = "records_get"

abbrev pub log_parameters : LogRoute → List String
log_parameters whole_log = "after_seq" ∷ "cursor" ∷ "limit" ∷ []
log_parameters records_get = "after_seq" ∷ "cursor" ∷ "limit" ∷ "collection_tag" ∷ "epoch" ∷ []

-- Whether a record has the tag and the epoch that are asked for.
abbrev matches : Option String → Option ℕ → Value → Bool
matches none epoch v = true
matches (some tag) none v = false
matches (some tag) (some epoch) v = is_text (v ! "collection_tag") tag && (n v "epoch" == epoch)

unfoldable pub includes : LogRoute → Option String → Option ℕ → Value → Bool
includes whole_log tag epoch entry = true
includes records_get tag epoch entry =
    (s entry "kind" == "record") && matches tag epoch (entry ! "object")

-- An envelope for recovery is the admin's to read.
unfoldable pub is_secret : Auth → Value → Bool
is_secret auth entry =
    not (is_admin auth)
    && (s entry "kind" == "envelope")
    && is_text (entry ! "object" ! "recipient_kind") "recovery"

abbrev pub push_entry : Value → Result (List Value × ℕ) → Result (List Value × ℕ)
push_entry v (ok (items, position)) = ok (v ∷ items, position)
push_entry v (err e) = err e

module _ ⦃x : External⦄ where
  -- The loop over the rows, from the number of items, their bytes and the position so far.
  unfoldable pub scan :
      Chain
      → (Value → Bool)
      → (Value → Bool)
      → ℕ
      → ℕ
      → ℕ
      → ℕ
      → Table ℕ (Option Value)
      → Result (List Value × ℕ)
  unfolding pruned
  scan c wanted secret limit count bytes position [] = ok ([], position)
  scan c wanted secret limit count bytes position ((seq, none) ∷ rows) = err (pruned c)
  scan c wanted secret limit count bytes position ((seq, some v) ∷ rows) =
      let over = scan c wanted secret limit count bytes seq rows in
      let taken = scan c wanted secret limit (count + 1) (bytes + item_size v) seq rows in
      if not (wanted v)
      then over
      else if leb limit count || not (fits bytes v)
      then ok ([], position)
      else if secret v
      then throw envelope_access_denied
      else push_entry v taken

  abbrev entry_size : ℕ × Option Value → ℕ
  entry_size row = elim row.1 [ none ↦ 0 | some v ↦ text_size v ]

  abbrev entries_of : Table ℕ LogRow → Table ℕ (Option Value)
  entries_of [] = []
  entries_of ((k, r) ∷ rows) = (k, r.entry) ∷ entries_of rows

  -- The query for the rows of a page.
  unfoldable pub log_rows : Chain → Page → Db → Table ℕ (Option Value)
  unfolding order_rows limit_rows rows_between
  log_rows c p db =
      limit_rows 1000 (
        order_rows (entries_of (rows_between c.chain_id c.log_id p.position p.cut.head_seq db.log)))

  abbrev bad_tag : Option String → Bool
  bad_tag none = false
  bad_tag (some t) = is_none (decode t (some 16))

  unfoldable pub check_filters : Chain → Option String → Option String → Result (Option ℕ)
  unfolding decimal
  check_filters c tag epoch =
      let unusable =
        is_some tag && not (is_text (c.parameters ! "policy" ! "metadata_profile") "queryable") in
      if (is_some tag /= is_some epoch) || unusable
      then throw filter_not_allowed
      else if bad_tag tag
      then throw invalid_field
      else opt_decimal epoch 0 4294967295

  abbrev log_filters : Option String → Option ℕ → Value
  log_filters tag epoch = object (("collection_tag", opt_str tag) ∷ ("epoch", opt_num epoch) ∷ [])

  -- The rest of `log`, behind its page.
  unfoldable pub log_page :
      Chain → RelayConfig → Auth → LogRoute → Option String → Option ℕ → Page → Action Value
  unfolding scan log_rows finish includes is_secret pruned bounded_rows
  log_page c cfg auth route tag epoch p = do
    lift (if ltb p.position (c.min_available_seq - 1) then err (pruned c) else ok tt)
    found ← gets (log_rows c p)
    rows ← lift (bounded_rows entry_size found)
    scanned ← lift (scan c (includes route tag epoch) (is_secret auth) p.limit 0 0 p.position rows)
    let (items, position) = scanned
    let read = record p { position = position }
    finish cfg read items (ltb position p.cut.head_seq) true

  -- `log`
  unfoldable pub log : Chain → RelayConfig → Auth → LogRoute → Query → Value → Action Value
  unfolding log_page page check_filters allowed query
  log c cfg auth route q versions = do
    lift (allowed q (log_parameters route))
    let tag = query q "collection_tag"
    epoch ← lift (check_filters c tag (query q "epoch"))
    p ← page c cfg (route_name route) q (log_filters tag epoch) versions
    log_page c cfg auth route tag epoch p
