-- ===== src/Routing/Answer.antt =====
-- The answer to an authenticated request on a chain (the main path of `handle` in src/api/sync.rs).
-- The operation that the route selects is an argument; the permits of transfers, which bound how many
-- run at once, and the headers of the response are not in the model.
use palla_sync.Routing.Endpoint.{Route, delete, deletion, reseed}
use palla_sync.Db.Action.{◌>>=◌, ◌>>◌, Action, pure, gets, lift, fail_with, require, fail_if}
use palla_sync.Prelude.{
  ℕ, Bool, true, String, if◌then◌else◌, false, not, Option, ◌&&◌, some, find_row, [], none, text_eq,
  ◌==◌,
}
use palla_sync.Crypto.Primitives.{External}
use palla_sync.Json.{Value}
use palla_sync.Error.{ok, Result, err, chain_not_found}
use palla_sync.Read.{allowed, Query}
use palla_sync.Config.{RelayConfig, write_guard}
use palla_sync.Routing.Audit.{audit_request}
use palla_sync.Auth.Rate.{Floats}
use palla_sync.Batch.{attempt}
use palla_sync.Store.Objects.{load}
use palla_sync.Mutation.{Reply}
use palla_sync.Deletion.{gone}
use palla_sync.Deletion.Erasure.{complete}
use palla_sync.Auth.Authenticate.{authenticate}
use palla_sync.Store.Quota.{save, quota}
use palla_sync.Auth.{check_state, Auth, is_admin}
use palla_sync.Db.{DeletionRow, Chain}
use palla_sync.Auth.Token.{AuthRequest}
use palla_sync.Crypto.{object_hash}

-- The status and the body.
abbrev pub Response : Type 0
Response = ℕ × Value

abbrev pub is_delete : Route → Bool
is_delete delete = true
is_delete route = false

abbrev is_deletion : Route → Bool
is_deletion deletion = true
is_deletion route = false

abbrev is_reseed : Route → Bool
is_reseed reseed = true
is_reseed route = false

-- A result that is not looked at; what was written stays.
abbrev pub ignored : {A : Type 0} → Action A → Action (Unit {0})
ignored m w = (ok tt, (m w).1)

module _ ⦃x : External⦄ where
  abbrev save_changed : Bool → RelayConfig → Reply → Action Response
  save_changed true cfg r = pure (r.status, r.response)
  save_changed false cfg r =
      save r.chain cfg >> (quota r.chain.chain_id cfg >> pure (r.status, r.response))

  -- An operation on a chain that is there; a change is saved.
  unfoldable pub serve :
      RelayConfig → String → Route → String → Bool → Auth → (Chain → Action Reply) → Action Response
  unfolding load save quota check_state
  serve cfg chain route name is_get auth operation = do
    found ← load chain
    c ← require found chain_not_found
    fail_if (not c.writable && not (is_admin auth && is_reseed route)) chain_not_found
    check_state c auth name
    r ← operation c
    save_changed is_get cfg r

  -- What a deleted chain still answers.
  unfoldable pub denied : Route → Query → Value → DeletionRow → Action Response
  unfolding allowed gone
  denied route q v d =
      if is_deletion route
      then (lift (allowed q []) >> pure (200, d.proof))
      else if is_delete route && (d.request_hash == object_hash v)
      then pure (202, d.outcome)
      else fail_with (gone d.proof)

  -- Behind the operation: a refused request was rolled back and is audited; a deletion is completed
  -- at once if that succeeds.
  unfoldable pub settle :
      RelayConfig → String → Route → Value → Bool → Result Response → Action Response
  unfolding audit_request complete
  settle cfg chain route v busy (ok r) =
      if is_delete route then (ignored (complete busy cfg) >> pure r) else pure r
  settle cfg chain route v busy (err e) = audit_request cfg chain v e.code >> fail_with e

  abbrev pub perform :
      RelayConfig
      → String
      → Route
      → Query
      → Value
      → Bool
      → Action Response
      → Option DeletionRow
      → Action Response
  perform cfg chain route q v busy operation (some d) = denied route q v d
  perform cfg chain route q v busy operation none =
      attempt operation >>= settle cfg chain route v busy

  -- The transaction of a request.
  unfoldable pub transact :
      RelayConfig → String → Route → Query → Value → Bool → Action Response → Action Response
  unfolding denied settle attempt
  transact cfg chain route q v busy operation =
      gets (λ db. find_row chain db.deletions) >>= perform cfg chain route q v busy operation

  abbrev pub guard : RelayConfig → Bool → Route → Action (Unit {0})
  guard cfg is_get route = if not is_get && not (is_delete route) then write_guard cfg else pure tt

  module _ ⦃f : Floats⦄ where
    -- What authentication wrote, the nonce and the rate, stays whatever follows.
    unfoldable pub answer :
        RelayConfig
        → AuthRequest
        → Bool
        → Route
        → Query
        → Result Value
        → Bool
        → (Auth → Value → Action Response)
        → Action Response
    unfolding authenticate write_guard transact
    answer cfg r is_get route q parsed busy operation = do
      auth ← authenticate cfg r
      v ← lift parsed
      guard cfg is_get route
      transact cfg r.chain_id route q v busy (operation auth v)
