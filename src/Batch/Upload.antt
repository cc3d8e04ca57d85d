-- ===== src/Batch/Upload.antt =====
-- The request and the response of a batch (`upload` of src/api/batch.rs).
use palla_sync.Prelude.{
  ℕ, Option, List, String, Bool, find, some, ◌∷◌, text_ltb, false, [], if◌then◌else◌, none, ltb,
  not, ◌==◌, is_empty, nat_eq, text_eq,
}
use palla_sync.Json.{Value, str, num, bool, array, object as json, set_member, s, n, a}
use palla_sync.Error.{storage_unavailable, quota_exceeded}
use palla_sync.Db.{Chain}
use palla_sync.Db.Action.{Action, ◌>>=◌, ◌>>◌, pure, lift, fail_if, require}
use palla_sync.Domain.Commit.{sort_by}
use palla_sync.Batch.{
  Progress, start, upload_all, External, List, UploadRoute, String, Option, RelayConfig, find, Bool,
  generation, some, Auth, object_hash, text_ltb, [], load, false, quota, ltb, not, is_empty,
}
use palla_sync.Batch.Checks.{list_key, is_repair, check_upload}
use palla_sync.Crypto.Primitives.{External}
use palla_sync.Batch.Items.{UploadRoute, parts_post, envelopes_post}
use palla_sync.Config.{RelayConfig}
use palla_sync.Auth.{Auth}
use palla_sync.Store.Hashes.{generation}
use palla_sync.Store.Quota.{quota}
use palla_sync.Store.Objects.{load}
use palla_sync.Crypto.{object_hash}

module _ ⦃x : External⦄ where
  abbrev record_of : List Value → Value → String
  record_of records receipt = elim (find (λ r. object_hash r == s receipt "object_hash") records) [
    | none ↦ ""
    | some r ↦ s r "record_id"
  ]

  abbrev before : UploadRoute → List Value → Value → Value → Bool
  before parts_post records u v = text_ltb (record_of records u) (record_of records v)
  before route records u v = ltb (n u "relay_seq") (n v "relay_seq")

  abbrev base_response : UploadRoute → List Value → Progress → Value
  base_response route records p = json (
      ("accepted", array p.accepted)
      ∷ ("rejected", array p.rejected)
      ∷ ("upload_receipts", array (sort_by (before route records) p.receipts))
      ∷ [])

  abbrev with_head : UploadRoute → Progress → Chain → Value → Value
  with_head route p c v =
      let v₁ = set_member v "generation" (num (generation c)) in
      let v₂ = set_member v₁ "log_id" (str c.log_id) in
      let v₃ = set_member v₂ "head_seq" (num c.head_seq) in
      let v₄ = set_member v₃ "head_hash" (str c.head_hash) in
      if is_repair route
      then set_member v₄ "repair_required" (bool (not (is_empty p.rejected)))
      else v₄

  abbrev pub head_chain : String → Option Chain → Action Chain
  head_chain chain (some c) = pure c
  head_chain chain none = load chain >>= λ found. require found storage_unavailable

  unfoldable pub upload_response : String → UploadRoute → List Value → Progress → Action Value
  upload_response chain parts_post records p = pure (base_response parts_post records p)
  upload_response chain envelopes_post records p = pure (base_response envelopes_post records p)
  upload_response chain route records p = head_chain chain p.final_chain >>= λ c.
      pure (with_head route p c (base_response route records p))

  abbrev is_full : Option ℕ → Bool
  is_full none = false
  is_full (some max) = max == 0

  -- `upload`
  unfoldable pub upload : RelayConfig → Auth → String → UploadRoute → String → Value → Action Value
  upload cfg auth chain route param v = do
    lift (check_upload cfg auth route v)
    fail_if (is_full cfg.max_bytes) quota_exceeded
    quota chain cfg
    p ← upload_all cfg auth chain route param v 0 (a v (list_key route)) start
    upload_response chain route (a v (list_key route)) p
