-- ===== src/Routing/Dispatch.antt =====
-- The operation of a route (`dispatch` of src/api/sync.rs). The listings, the export and the re-seeding
-- of a chain, which stand in files of their own, are an interface.
use palla_sync.Routing.Endpoint.{
  Route, devices, epochs_get, own_envelopes, snapshots_get, requests_get, records_get, log, export,
  transparency, receipt, parameters_get, head, notice, epoch_get, recovery, part_get, snapshot_get,
  transparency_head, enroll, epochs_post, revoke, offer, approve, reject, ack, snapshot, prune,
  reseed, delete, deletion,
}
use palla_sync.Store.Hashes.{head as chain_head}
use palla_sync.Read.Log.{log as read_log, LogRoute}
use palla_sync.Mutation.Enroll.{enroll as carry_out_enroll}
use palla_sync.Mutation.Offers.{offer as make_offer, approve as settle_offer, ack as acknowledge}
use palla_sync.Mutation.Snapshots.{snapshot as make_snapshot, prune as prune_log}
use palla_sync.Deletion.{delete as delete_chain}
use palla_sync.Routing.Shown.{
  show_parameters, show_notice, show_epoch, show_recovery, show_part, show_snapshot,
  show_published_head, show_receipt,
}
use palla_sync.Json.{Value}
use palla_sync.Db.Action.{◌>>=◌, ◌>>◌, Action, fail_if, pure, lift, fail}
use palla_sync.Db.{kind_eq}
use palla_sync.Prelude.{
  text_eq, pair_eq, nat_eq, Bool, true, String, false, some, none, ltb, if◌then◌else◌, [], nat_eq,
  text_eq,
}
use palla_sync.Db.{Chain}
use palla_sync.Crypto.Primitives.{External}
use palla_sync.Read.{allowed, Query, response_max}
use palla_sync.Mutation.{Reply, reply}
use palla_sync.Auth.{Auth}
use palla_sync.Config.{RelayConfig}
use palla_sync.Store.Quota.{text_size}
use palla_sync.Error.{payload_too_large, chain_not_found, internal_error}
use palla_sync.Read.Published.{published_log}
use palla_sync.Mutation.Epochs.{change_epoch}

pub record Handlers : Type 0 where
  pub objects : Chain → Auth → Route → String → Query → Action Value
  pub requests : Chain → Auth → Query → Action Value
  pub export_chain : Chain → Auth → Query → Action Value
  pub reseed_chain : Chain → Auth → Value → Action Reply

-- The routes that check their query themselves.
abbrev pub has_query : Route → Bool
has_query devices = true
has_query epochs_get = true
has_query own_envelopes = true
has_query snapshots_get = true
has_query requests_get = true
has_query records_get = true
has_query log = true
has_query export = true
has_query transparency = true
has_query receipt = true
has_query route = false

module _ ⦃x : External⦄ where
  -- A response is at most 8 MiB.
  unfoldable pub bounded : Reply → Action Reply
  bounded r = fail_if (ltb response_max (text_size r.response)) payload_too_large >> pure r

  abbrev pub shown : Chain → Action Value → Action Reply
  shown c m = m >>= λ v. bounded (reply 200 v c)

  abbrev deleted : Action (Chain × Value) → Action Reply
  deleted m = m >>= λ p. bounded (reply 202 p.1 p.0)

  module _ (handlers : Handlers) (c : Chain) (cfg : RelayConfig) (auth : Auth) (param : String)
      (q : Query) (v versions : Value) where
    unfoldable pub run_route : Route → Action Reply
    unfolding bounded show_parameters show_notice show_epoch show_recovery show_part show_snapshot
        show_published_head show_receipt
    run_route parameters_get = shown c (show_parameters c cfg)
    run_route head = shown c (pure (chain_head c))
    run_route notice = shown c (show_notice c)
    run_route devices = shown c (handlers.objects c auth devices param q)
    run_route epochs_get = shown c (handlers.objects c auth epochs_get param q)
    run_route snapshots_get = shown c (handlers.objects c auth snapshots_get param q)
    run_route own_envelopes = shown c (handlers.objects c auth own_envelopes param q)
    run_route records_get = shown c (read_log c cfg auth LogRoute.records_get q versions)
    run_route log = shown c (read_log c cfg auth LogRoute.whole_log q versions)
    run_route epoch_get = shown c (show_epoch c param)
    run_route recovery = shown c (show_recovery c auth param)
    run_route part_get = shown c (show_part c param)
    run_route snapshot_get = shown c (show_snapshot c param)
    run_route transparency_head = shown c (show_published_head c)
    run_route transparency = shown c (published_log c cfg q versions)
    run_route receipt = shown c (show_receipt c auth param q)
    run_route export = handlers.export_chain c auth q >>= λ w. pure (reply 200 w c)
    run_route enroll = carry_out_enroll c cfg auth v none >>= bounded
    run_route epochs_post = change_epoch c cfg auth v none >>= bounded
    run_route revoke = change_epoch c cfg auth v (some param) >>= bounded
    run_route offer = make_offer c auth v >>= bounded
    run_route approve = settle_offer c cfg auth param v false >>= bounded
    run_route reject = settle_offer c cfg auth param v true >>= bounded
    run_route ack = shown c (acknowledge c auth param v)
    run_route snapshot = make_snapshot c cfg v >>= bounded
    run_route prune = prune_log c cfg auth v >>= bounded
    run_route reseed = handlers.reseed_chain c auth v >>= bounded
    run_route delete = deleted (delete_chain c cfg auth v)
    run_route deletion = fail chain_not_found
    run_route requests_get = shown c (handlers.requests c auth q)
    -- The other routes do not come here.
    run_route route = fail internal_error

    -- `dispatch`
    unfoldable pub dispatch : Route → Action Reply
    unfolding run_route allowed
    dispatch route =
        if has_query route then run_route route else (lift (allowed q []) >> run_route route)
