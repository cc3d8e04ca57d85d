-- ===== src/Routing/Reading/Routes.antt =====
-- What `dispatch` (src/api/sync.rs) changes for a route of GET.
use palla_sync.Routing.Endpoint.{
  Route, health, genesis, import, delete, reseed, parameters_get, enroll, devices, revoke,
  own_envelopes, ack, records_post, records_get, repair, offer, request, requests_get, approve,
  reject, epochs_post, epochs_get, epoch_get, recovery, envelopes_post, log, head, prune, snapshot,
  snapshots_get, parts_post, part_get, snapshot_get, export, notice, deletion, receipt,
  transparency_head, transparency,
}
use palla_sync.Store.Hashes.{head as chain_head}
use palla_sync.Db.Keeps.{Keeps, Keeps-if, Keeps-bind, Keeps-lift, keeps_rules}
use palla_sync.Store.Append.{receipt as stored_receipt}
use palla_sync.Store.Objects.{object as find_body}
use palla_sync.Db.{kind_eq, Db, Chain, Kind, World}
use palla_sync.Prelude.{refl, text_eq, pair_eq, nat_eq, String, Option, some, ◌==◌, none, ◌≡◌, true}
use palla_sync.Crypto.Primitives.{External}
use palla_sync.Routing.Shown.{
  show_epoch, show_recovery, show_parameters, show_receipt, show_published_head, show_notice,
  show_part, show_snapshot, notice_or_none,
}
use palla_sync.Routing.Dispatch.{Handlers, bounded, run_route, dispatch, shown, has_query}
use palla_sync.Routing.Reading.{AreReading, IsRead, Value, Query, log-IsRead, published_log-IsRead}
use palla_sync.Read.Epochs.{epoch_wrapper}
use palla_sync.Mutation.{Reply, reply}
use palla_sync.Config.{RelayConfig}
use palla_sync.Retention.{expired}
use palla_sync.Db.Keeps.{Keeps, keeps_rules, Keeps-bind}
use palla_sync.Auth.{Auth}
use palla_sync.Read.{Query}
use palla_sync.Json.{Value}
use palla_sync.Routing.Endpoint.Methods.{method_of}
use palla_sync.Db.Action.{Action, pure}

module _ ⦃x : External⦄ (old : Db) where
  find_body-IsRead :
      (c : String) (kind : Kind) (id : String) → Keeps (IsRead old) (find_body c kind id)
  unfolding find_body
  find_body-IsRead c kind id = search keeps_rules

  bounded-IsRead : (r : Reply) → Keeps (IsRead old) (bounded r)
  unfolding bounded
  bounded-IsRead r = search keeps_rules

  show_parameters-IsRead :
      (c : Chain) (cfg : RelayConfig) → Keeps (IsRead old) (show_parameters c cfg)
  unfolding show_parameters
  show_parameters-IsRead c cfg = search keeps_rules

  notice_or_none-IsRead : (c : Chain) (v : Option Value) → Keeps (IsRead old) (notice_or_none c v)
  notice_or_none-IsRead c none = search keeps_rules
  notice_or_none-IsRead c (some v) = search keeps_rules

  show_notice-IsRead : (c : Chain) → Keeps (IsRead old) (show_notice c)
  unfolding show_notice
  show_notice-IsRead c = search (keeps_rules, notice_or_none-IsRead)

  show_epoch-IsRead : (c : Chain) (param : String) → Keeps (IsRead old) (show_epoch c param)
  unfolding show_epoch epoch_wrapper
  show_epoch-IsRead c param = search (keeps_rules, find_body-IsRead) depth 16

  show_recovery-IsRead :
      (c : Chain) (auth : Auth) (param : String) → Keeps (IsRead old) (show_recovery c auth param)
  unfolding show_recovery expired
  show_recovery-IsRead c auth param = search (keeps_rules, find_body-IsRead) depth 24

  show_part-IsRead : (c : Chain) (param : String) → Keeps (IsRead old) (show_part c param)
  unfolding show_part stored_receipt
  show_part-IsRead c param = search (keeps_rules, find_body-IsRead) depth 24

  show_snapshot-IsRead : (c : Chain) (param : String) → Keeps (IsRead old) (show_snapshot c param)
  unfolding show_snapshot
  show_snapshot-IsRead c param = search (keeps_rules, find_body-IsRead) depth 16

  show_published_head-IsRead : (c : Chain) → Keeps (IsRead old) (show_published_head c)
  unfolding show_published_head
  show_published_head-IsRead c = search keeps_rules

  show_receipt-IsRead :
      (c : Chain) (auth : Auth) (param : String) (q : Query)
      → Keeps (IsRead old) (show_receipt c auth param q)
  unfolding show_receipt
  show_receipt-IsRead c auth param q = search keeps_rules depth 24

  module _ (handlers : Handlers) (reading : AreReading old handlers) (c : Chain) (cfg : RelayConfig)
      (auth : Auth) (param : String) (q : Query) (v versions : Value) where
    shown-IsRead : (m : Action Value) → Keeps (IsRead old) m → Keeps (IsRead old) (shown c m)
    shown-IsRead m k = Keeps-bind _ _ k (λ u. bounded-IsRead (reply 200 u c))

    abbrev Reads : Route → Type 0
    Reads route =
        (method_of route == "GET") ≡ true
        → Keeps (IsRead old) (run_route handlers c cfg auth param q v versions route)

    run_route-IsRead : (route : Route) → Reads route
    unfolding run_route
    run_route-IsRead parameters_get h = shown-IsRead _ (show_parameters-IsRead c cfg)
    run_route-IsRead head h = shown-IsRead (pure (chain_head c)) (search keeps_rules)
    run_route-IsRead notice h = shown-IsRead _ (show_notice-IsRead c)
    run_route-IsRead devices h = shown-IsRead _ (reading.objects c auth devices param q)
    run_route-IsRead epochs_get h = shown-IsRead _ (reading.objects c auth epochs_get param q)
    run_route-IsRead snapshots_get h = shown-IsRead _ (reading.objects c auth snapshots_get param q)
    run_route-IsRead own_envelopes h = shown-IsRead _ (reading.objects c auth own_envelopes param q)
    run_route-IsRead records_get h = shown-IsRead _ (log-IsRead old c cfg auth _ q versions)
    run_route-IsRead log h = shown-IsRead _ (log-IsRead old c cfg auth _ q versions)
    run_route-IsRead epoch_get h = shown-IsRead _ (show_epoch-IsRead c param)
    run_route-IsRead recovery h = shown-IsRead _ (show_recovery-IsRead c auth param)
    run_route-IsRead part_get h = shown-IsRead _ (show_part-IsRead c param)
    run_route-IsRead snapshot_get h = shown-IsRead _ (show_snapshot-IsRead c param)
    run_route-IsRead transparency_head h = shown-IsRead _ (show_published_head-IsRead c)
    run_route-IsRead transparency h = shown-IsRead _ (published_log-IsRead old c cfg q versions)
    run_route-IsRead receipt h = shown-IsRead _ (show_receipt-IsRead c auth param q)
    run_route-IsRead export h =
        Keeps-bind _ _ (reading.export_chain c auth q) (λ u. search keeps_rules)
    run_route-IsRead requests_get h = shown-IsRead _ (reading.requests c auth q)
    run_route-IsRead deletion h = search keeps_rules
    run_route-IsRead health h = search keeps_rules
    run_route-IsRead genesis h = cc
    run_route-IsRead import h = cc
    run_route-IsRead delete h = cc
    run_route-IsRead reseed h = cc
    run_route-IsRead enroll h = cc
    run_route-IsRead revoke h = cc
    run_route-IsRead ack h = cc
    run_route-IsRead records_post h = cc
    run_route-IsRead repair h = cc
    run_route-IsRead offer h = cc
    run_route-IsRead request h = cc
    run_route-IsRead approve h = cc
    run_route-IsRead reject h = cc
    run_route-IsRead epochs_post h = cc
    run_route-IsRead envelopes_post h = cc
    run_route-IsRead prune h = cc
    run_route-IsRead snapshot h = cc
    run_route-IsRead parts_post h = cc

    dispatch-Keeps :
        (route : Route)
        → (method_of route == "GET") ≡ true
        → Keeps (IsRead old) (dispatch handlers c cfg auth param q v versions route)
    unfolding dispatch
    dispatch-Keeps route h =
        let ran = run_route-IsRead route h in
        Keeps-if (has_query route) _ _ ran (Keeps-bind _ _ (Keeps-lift _) (λ u. ran))

-- Where the handlers only read, a route of GET, whether it succeeds or fails, changes nothing in the
-- database but the cursors of pages.
pub dispatch-IsRead :
    ⦃x : External⦄ (handlers : Handlers) (c : Chain) (cfg : RelayConfig) (auth : Auth)
    (param : String) (q : Query) (v versions : Value) (route : Route) (w : World)
    → AreReading w.db handlers
    → (method_of route == "GET") ≡ true
    → IsRead w.db (dispatch handlers c cfg auth param q v versions route w).1.db
dispatch-IsRead handlers c cfg auth param q v versions route w reading h =
    (dispatch-Keeps w.db handlers reading c cfg auth param q v versions route h).at w refl
