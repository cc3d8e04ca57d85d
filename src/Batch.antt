-- ===== src/Batch.antt =====
-- Batch upload of records, repairs, snapshot parts and envelopes (`upload` and `audit_reject` of
-- src/api/batch.rs). Each item runs in a transaction of its own. That SQLite begins, commits and
-- rolls back without an error of its own is part of the model.
pub mod Items
pub mod Checks
pub mod Upload
pub mod Settles
pub mod Rounds
pub mod Accounts
pub mod Rollback
use palla_sync.Prelude.{
  ℕ, zero, suc, ◌+◌, Bool, true, false, not, ◌&&◌, ◌||◌, Option, none, some, List, [], ◌∷◌, ◌++◌,
  String, ◌==◌, ◌/=◌, nat_eq, text_eq, ltb, text_ltb, is_some, is_empty, distinct, all, length, map,
  if◌then◌else◌, find,
}
use palla_sync.Json.{Value, str, num, bool, array, object as json, set_member, s, n, a}
use palla_sync.Error.{
  Result, ok, err, Code, ApiError, failed, quota_exceeded, storage_unavailable, chain_deleted,
  invalid_field, device_key_mismatch, chain_not_found, code_name, reject_if,
}
use palla_sync.Crypto.Primitives.{External}
use palla_sync.Crypto.{object_hash}
use palla_sync.Db.{Chain}
use palla_sync.Db.Action.{
  Action, ◌>>=◌, ◌>>◌, pure, lift, fail, fail_if, fail_with, require, transaction,
}
use palla_sync.Config.{RelayConfig, limits}
use palla_sync.Wire.Types.{Schema, fields, array as list_of_values, uuid, is_uuid}
use palla_sync.Wire.Validate.{validate}
use palla_sync.Store.Hashes.{generation}
use palla_sync.Store.Objects.{load}
use palla_sync.Store.Transparency.{transparency}
use palla_sync.Store.Quota.{quota, save}
use palla_sync.Auth.{Auth, is_admin, require_admin}
use palla_sync.Domain.{rejection}
use palla_sync.Domain.Commit.{sort_by}
use palla_sync.Batch.Items.{
  UploadRoute, records_post, parts_post, envelopes_post, repair, Item, id_key, item_kind,
  admit_item, upload_item,
}

-- What the loop has gathered.
pub record Progress : Type 0 where
  pub accepted : List Value
  pub rejected : List Value
  pub receipts : List Value
  pub final_chain : Option Chain

abbrev pub start : Progress
start = record { accepted = []; rejected = []; receipts = []; final_chain = none }

-- Codes after which nothing more is tried, if nothing was accepted.
abbrev pub is_exhausted : Code → Bool
is_exhausted quota_exceeded = true
is_exhausted storage_unavailable = true
is_exhausted code = false

-- Codes whose rejections are not audited.
abbrev pub is_unaudited : Code → Bool
is_unaudited quota_exceeded = true
is_unaudited storage_unavailable = true
is_unaudited chain_deleted = true
is_unaudited code = false

abbrev is_ok : {A : Type 0} → Result A → Bool
is_ok (ok a) = true
is_ok (err e) = false

abbrev pub or_first : Option Chain → Chain → Option Chain
or_first none c = some c
or_first (some old) c = some old

abbrev pub reject : UploadRoute → Value → ApiError → Progress → Progress
reject route r e p = record p { rejected = p.rejected ++ rejection r (id_key route) e ∷ [] }

-- Every item that is left is rejected for one reason, and the loop ends.
abbrev pub reject_rest : UploadRoute → List Value → ApiError → Progress → Progress
reject_rest route rs e p = record p {
  rejected = p.rejected ++ map (λ r. rejection r (id_key route) e) rs;
}

abbrev pub accept_item : Item → Progress → Progress
accept_item i p = record p {
  accepted = p.accepted ++ i.accepted ∷ [];
  receipts = p.receipts ++ i.receipt ∷ [];
  final_chain = some i.chain;
}

-- An action whose error is a value; its writes are rolled back.
unfoldable pub attempt : {A : Type 0} → Action A → Action (Result A)
unfolding transaction
attempt m w = let (r, w') = transaction m w in (ok r, w')

module _ ⦃x : External⦄ where
  -- `audit_reject`: the rejection enters the transparency log.
  unfoldable pub record_rejection : RelayConfig → Value → Code → Chain → Action Chain
  record_rejection cfg r code c = do
    t ← transparency c cfg "reject" (object_hash r) none (some (code_name code))
    save t.chain cfg
    pure t.chain

  unfoldable pub audit_reject : RelayConfig → String → Value → Code → Action Chain
  audit_reject cfg chain r code = do
    found ← load chain
    c ← require found chain_not_found
    record_rejection cfg r code c

  -- One item: its checks, its writes, and the chain that is saved.
  unfoldable pub run_item :
      Chain → RelayConfig → Auth → String → UploadRoute → String → Value → ℕ → Value → Action Item
  run_item c cfg auth chain route param v index r = do
    admit_item c cfg auth chain
    i ← upload_item c cfg auth chain route param v index r
    save i.chain cfg
    pure i

  unfoldable pub must_audit : UploadRoute → Value → Code → Bool
  must_audit route r code = not (is_unaudited code) && is_ok (validate r (item_kind route))

  abbrev replace_last : UploadRoute → Value → List Value → ApiError → Progress → Progress
  replace_last route r rs e p = reject_rest route (r ∷ rs) e p

  -- `p` is the progress before the item. The flag says whether the loop goes on.
  unfoldable pub after_audit :
      UploadRoute
      → Value
      → List Value
      → ApiError
      → Progress
      → Result Chain
      → Action (Bool × Progress)
  after_audit route r rs e p (ok c) =
      pure (true, record (reject route r e p) { final_chain = some c })
  after_audit route r rs e p (err f) =
      if is_empty p.accepted then fail_with f else pure (false, replace_last route r rs f p)

  unfoldable pub reject_item :
      RelayConfig
      → String
      → UploadRoute
      → Value
      → List Value
      → ApiError
      → Progress
      → Action (Bool × Progress)
  reject_item cfg chain route r rs e p =
      if is_empty p.accepted && is_exhausted e.code
      then fail_with e
      else if must_audit route r e.code
      then (attempt (audit_reject cfg chain r e.code) >>= after_audit route r rs e p)
      else pure (true, reject route r e p)

  unfoldable pub settle_item :
      RelayConfig
      → String
      → UploadRoute
      → Value
      → List Value
      → Progress
      → Result Item
      → Action (Bool × Progress)
  settle_item cfg chain route r rs p (ok i) = pure (true, accept_item i p)
  settle_item cfg chain route r rs p (err e) = reject_item cfg chain route r rs e p

  unfoldable pub missing_chain : UploadRoute → List Value → Progress → Action (Bool × Progress)
  missing_chain route rs p =
      if is_empty p.accepted
      then fail chain_not_found
      else pure (false, reject_rest route rs (failed chain_not_found) p)

  unfoldable pub upload_from :
      RelayConfig
      → Auth
      → String
      → UploadRoute
      → String
      → Value
      → ℕ
      → Value
      → List Value
      → Progress
      → Option Chain
      → Action (Bool × Progress)
  upload_from cfg auth chain route param v index r rs p none = missing_chain route (r ∷ rs) p
  upload_from cfg auth chain route param v index r rs p (some c) =
      attempt (run_item c cfg auth chain route param v index r)
      >>= settle_item cfg chain route r rs (record p { final_chain = or_first p.final_chain c })

  -- A round of the loop, for the item `r` before the items `rs`.
  unfoldable pub upload_one :
      RelayConfig
      → Auth
      → String
      → UploadRoute
      → String
      → Value
      → ℕ
      → Value
      → List Value
      → Progress
      → Action (Bool × Progress)
  upload_one cfg auth chain route param v index r rs p =
      load chain >>= upload_from cfg auth chain route param v index r rs p

  -- The flag of a round says whether the loop goes on.
  unfoldable pub go_on : Action Progress → Bool × Progress → Action Progress
  go_on rest (true, p) = rest
  go_on rest (false, p) = pure p

  unfoldable pub upload_all :
      RelayConfig
      → Auth
      → String
      → UploadRoute
      → String
      → Value
      → ℕ
      → List Value
      → Progress
      → Action Progress
  upload_all cfg auth chain route param v index [] p = pure p
  upload_all cfg auth chain route param v index (r ∷ rs) p =
      upload_one cfg auth chain route param v index r rs p >>= λ step.
      go_on (upload_all cfg auth chain route param v (index + 1) rs step.1) step
