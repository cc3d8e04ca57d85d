-- ===== src/Invariant/Runs.antt =====
-- The operations of src/api/mutation.rs, src/api/retention.rs, src/api/batch.rs and `delete` of
-- src/api/deletion.rs, and what each of them leaves as it is.
use palla_sync.Invariant.Completion.{complete-HasDigest}
use palla_sync.Deletion.Erasure.{complete, keys_of, incomplete}
use palla_sync.Deletion.{delete}
use palla_sync.Prelude.{
  false, contains, Bool, Option, some, true, String, ◌≡◌, find_row, pair_eq, text_eq,
}
use palla_sync.Json.{Value}
use palla_sync.Crypto.Primitives.{External}
use palla_sync.Db.{World, Db, Chain, ObjectKey, Kind}
use palla_sync.Config.{RelayConfig}
use palla_sync.Auth.{Auth}
use palla_sync.Store.Objects.{find_digest}
use palla_sync.Invariant.{IsStable}
use palla_sync.Invariant.Digests.{HasDigest-IsStable}
use palla_sync.Invariant.Revoked.{is_revoked, IsRevoked-IsStable}
use palla_sync.Invariant.Enrolling.{genesis-Keeps, enroll-Keeps}
use palla_sync.Mutation.Genesis.{genesis}
use palla_sync.Mutation.Enroll.{enroll}
use palla_sync.Mutation.Epochs.{change_epoch}
use palla_sync.Invariant.Operations.{
  change_epoch-Keeps, offer-Keeps, enrollment_request-Keeps, approve-Keeps, ack-Keeps,
}
use palla_sync.Mutation.Offers.{offer, enrollment_request, approve, ack}
use palla_sync.Invariant.Removals.{snapshot-Keeps, prune-Keeps, expire-Keeps}
use palla_sync.Mutation.Snapshots.{snapshot, prune}
use palla_sync.Retention.{expire}
use palla_sync.Store.Append.{append}
use palla_sync.Invariant.Appending.{append-Keeps, save-Keeps}
use palla_sync.Store.Quota.{save}
use palla_sync.Invariant.Requests.{delete-Keeps}
use palla_sync.Invariant.Batches.{upload-Keeps, maintenance-Keeps}
use palla_sync.Batch.Items.{UploadRoute}
use palla_sync.Batch.Upload.{upload}
use palla_sync.Retention.Maintenance.{maintenance}

pub data Operation : Type 0 where
  found : Value → Operation
  enrolling : Auth → Value → Option Value → Operation
  rotating : Auth → Value → Option String → Operation
  offering : Auth → Value → Operation
  requesting : Value → Operation
  approving : Auth → String → Value → Bool → Operation
  acknowledging : Auth → String → Value → Operation
  compacting : Value → Operation
  pruning : Auth → Value → Operation
  expiring : Operation
  appending : Kind → Value → Operation
  saving : Operation
  deleting : Auth → Value → Operation
  uploading : Auth → UploadRoute → String → Value → Operation
  maintaining : Operation

module _ ⦃x : External⦄ where
  -- The world after an operation, whether it succeeded or failed.
  abbrev pub run : RelayConfig → Chain → Operation → World → World
  run cfg c (found v) w = (genesis cfg v w).1
  run cfg c (enrolling auth v request) w = (enroll c cfg auth v request w).1
  run cfg c (rotating auth v device) w = (change_epoch c cfg auth v device w).1
  run cfg c (offering auth v) w = (offer c auth v w).1
  run cfg c (requesting v) w = (enrollment_request c v w).1
  run cfg c (approving auth id v reject) w = (approve c cfg auth id v reject w).1
  run cfg c (acknowledging auth id v) w = (ack c auth id v w).1
  run cfg c (compacting v) w = (snapshot c cfg v w).1
  run cfg c (pruning auth v) w = (prune c cfg auth v w).1
  run cfg c expiring w = (expire c w).1
  run cfg c (appending kind v) w = (append c cfg kind v w).1
  run cfg c saving w = (save c cfg w).1
  run cfg c (deleting auth v) w = (delete c cfg auth v w).1
  run cfg c (uploading auth route param v) w = (upload cfg auth c.chain_id route param v w).1
  run cfg c maintaining w = (maintenance cfg w).1

  pub run-Keeps :
      {P : Db → Type 0} (stable : IsStable P) (cfg : RelayConfig) (c : Chain) (op : Operation)
      (w : World)
      → P w.db
      → P (run cfg c op w).db
  run-Keeps stable cfg c (found v) w = (genesis-Keeps stable cfg v).at w
  run-Keeps stable cfg c (enrolling auth v request) w =
      (enroll-Keeps stable c cfg auth v request).at w
  run-Keeps stable cfg c (rotating auth v device) w =
      (change_epoch-Keeps stable c cfg auth v device).at w
  run-Keeps stable cfg c (offering auth v) w = (offer-Keeps stable c auth v).at w
  run-Keeps stable cfg c (requesting v) w = (enrollment_request-Keeps stable c v).at w
  run-Keeps stable cfg c (approving auth id v reject) w =
      (approve-Keeps stable c cfg auth id v reject).at w
  run-Keeps stable cfg c (acknowledging auth id v) w = (ack-Keeps stable c auth id v).at w
  run-Keeps stable cfg c (compacting v) w = (snapshot-Keeps stable c cfg v).at w
  run-Keeps stable cfg c (pruning auth v) w = (prune-Keeps stable c cfg auth v).at w
  run-Keeps stable cfg c expiring w = (expire-Keeps stable c).at w
  run-Keeps stable cfg c (appending kind v) w = (append-Keeps stable c cfg kind v).at w
  run-Keeps stable cfg c saving w = (save-Keeps stable c cfg).at w
  run-Keeps stable cfg c (deleting auth v) w = (delete-Keeps stable c cfg auth v).at w
  run-Keeps stable cfg c (uploading auth route param v) w =
      (upload-Keeps stable cfg auth c.chain_id route param v).at w
  run-Keeps stable cfg c maintaining w = (maintenance-Keeps stable cfg).at w

-- An operation, or the completion of the deletions that are open.
pub data Event : Type 0 where
  operating : Operation → Event
  completing : Bool → Event

-- The chains whose objects an event erases: those with an open deletion.
abbrev pub erases : Event → Db → String → Bool
erases (operating op) db id = false
erases (completing busy) db id = contains (keys_of (incomplete db)) id

module _ ⦃x : External⦄ where
  abbrev pub after : RelayConfig → Chain → Event → World → World
  after cfg c (operating op) w = run cfg c op w
  after cfg c (completing busy) w = (complete busy cfg w).1

-- Whatever genesis, enroll, change_epoch, offer, enrollment_request, approve, ack, snapshot, prune,
-- expire, append, save, delete, upload and maintenance are given and however they end, and however
-- complete ends, the digest of each object in the store stays as it is, but for the objects of a
-- chain whose open deletion complete erases.
pub run-digest :
    ⦃x : External⦄ (cfg : RelayConfig) (c : Chain) (event : Event) (w : World) (k : ObjectKey)
    (d : String)
    → erases event w.db k.0 ≡ false
    → find_digest w.db k ≡ some d
    → find_digest (after cfg c event w).db k ≡ some d
run-digest cfg c (operating op) w k d kept = run-Keeps (HasDigest-IsStable k d) cfg c op w
run-digest cfg c (completing busy) w k d kept = complete-HasDigest k d cfg busy w kept

-- Whatever genesis, enroll, change_epoch, offer, enrollment_request, approve, ack, snapshot, prune,
-- expire, append, save, delete, upload and maintenance are given and however they end, a device
-- that is revoked stays revoked.
pub run-revoked :
    ⦃x : External⦄ (cfg : RelayConfig) (c : Chain) (op : Operation) (w : World)
    (k : String × String)
    → is_revoked (find_row k w.registry) ≡ true
    → is_revoked (find_row k (run cfg c op w).registry) ≡ true
run-revoked cfg c op w k = run-Keeps (IsRevoked-IsStable k) cfg c op w
