-- ===== src/Routing/Admission.antt =====
-- The requests that do not run in one transaction: uploads, and the request of a device that is not
-- enrolled (`handle` in src/api/sync.rs).
pub mod Rated
use palla_sync.Routing.Answer.{Response}
use palla_sync.Auth.Authenticate.{join, authenticate}
use palla_sync.Batch.Items.{UploadRoute, records_post, parts_post}
use palla_sync.Db.Action.{◌>>=◌, ◌>>◌, Action, pure, lift, or_fail, fail_if, require}
use palla_sync.Prelude.{
  [], Option, Bool, true, String, some, false, none, if◌then◌else◌, List, ℕ, is_some,
}
use palla_sync.Crypto.Primitives.{External}
use palla_sync.Db.{Chain}
use palla_sync.Read.{allowed, Query}
use palla_sync.Auth.Rate.{Floats, rate}
use palla_sync.Deletion.{deletion_proof}
use palla_sync.Config.{write_guard, RelayConfig}
use palla_sync.Store.Objects.{load}
use palla_sync.Auth.{Auth}
use palla_sync.Batch.Upload.{upload}
use palla_sync.Mutation.Offers.{enrollment_request}
use palla_sync.Batch.{attempt}
use palla_sync.Crypto.{hash_bytes}
use palla_sync.Store.Quota.{quota}
use palla_sync.Auth.Token.{AuthRequest}
use palla_sync.Json.{Value, s}
use palla_sync.Error.{Result, offer_not_found}

-- A chain that is writable.
abbrev if_writable : Option Chain → Option Chain
if_writable none = none
if_writable (some c) = if c.writable then some c else none

abbrev is_rated : UploadRoute → Bool
is_rated records_post = true
is_rated parts_post = true
is_rated route = false

abbrev or_admin : Option String → String
or_admin none = "admin"
or_admin (some id) = id

module _ ⦃x : External⦄ where
  -- What runs behind the savepoint.
  unfoldable pub candidate : RelayConfig → String → Query → Value → Action Response
  unfolding allowed deletion_proof load enrollment_request quota
  candidate cfg chain q v = do
    lift (allowed q [])
    proof ← deletion_proof chain
    fail_if (is_some proof) offer_not_found
    found ← load chain
    c ← require (if_writable found) offer_not_found
    r ← enrollment_request c v
    quota chain cfg
    pure (r.status, r.response)

  module _ ⦃f : Floats⦄ where
    -- `source` is the text of the address in bytes. The rates are committed whatever follows.
    unfoldable pub answer_candidate :
        RelayConfig → List ℕ → String → Query → Value → Action Response
    unfolding write_guard rate attempt candidate hash_bytes
    answer_candidate cfg source chain q v = do
      or_fail (write_guard cfg) offer_not_found
      rate cfg "enrollment_source_ip" (hash_bytes source)
      rate cfg "enrollment_offer" (join chain (join ":" (s v "request_id")))
      r ← attempt (candidate cfg chain q v)
      lift r

    abbrev pub rate_upload : RelayConfig → String → UploadRoute → Auth → Action (Unit {0})
    rate_upload cfg chain route auth =
        if is_rated route
        then rate cfg "record_upload_device" (join chain (join ":" (or_admin auth.device_id)))
        else pure tt

    -- The routes of uploads, whose items run in transactions of their own.
    unfoldable pub answer_upload :
        RelayConfig → AuthRequest → UploadRoute → String → Query → Result Value → Action Response
    unfolding authenticate write_guard rate upload allowed
    answer_upload cfg r route param q parsed = do
      auth ← authenticate cfg r
      v ← lift parsed
      write_guard cfg
      lift (allowed q [])
      rate_upload cfg r.chain_id route auth
      response ← upload cfg auth r.chain_id route param v
      pure (200, response)
