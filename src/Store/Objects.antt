-- ===== src/Store/Objects.antt =====
-- Signed objects in the store (src/api/store.rs): reading, identifiers, conflicts and insertion.
use palla_sync.Prelude.{
  is_some, ℕ, Bool, true, false, ◌||◌, Option, none, some, String, ◌/=◌, text_eq, pair_eq,
  if◌then◌else◌, find_row, add_row,
}
use palla_sync.Decimal.{to_string}
use palla_sync.Json.{Value, s, n}
use palla_sync.Error.{
  Code, record_id_conflict, device_id_conflict, envelope_id_conflict, operation_id_conflict,
  import_conflict,
}
use palla_sync.Crypto.Primitives.{External}
use palla_sync.Crypto.{object_hash}
use palla_sync.Db.{
  Kind, parameters, epoch, device, envelope, compaction, admin, sync_record, snapshot_part, kind_eq,
  ObjectKey, ObjectRow, Chain, Db,
}
use palla_sync.Db.Action.{Action, ◌>>=◌, ◌>>◌, pure, fail, fail_if, gets, insert_unless}

-- `load`
unfoldable pub load : String → Action (Option Chain)
load chain = gets (λ db. find_row chain db.chains)

abbrev body_of : Option ObjectRow → Option Value
body_of none = none
body_of (some r) = r.body

abbrev pub digest_of : Option ObjectRow → Option String
digest_of none = none
digest_of (some r) = some r.object_hash

-- The body of an object, if it is there and was not removed.
unfoldable pub find_object : Db → ObjectKey → Option Value
find_object db k = body_of (find_row k db.objects)

-- The digest of an object, which stays when the body is removed.
unfoldable pub find_digest : Db → ObjectKey → Option String
find_digest db k = digest_of (find_row k db.objects)

-- `object` and `object_digest`
unfoldable pub object : String → Kind → String → Action (Option Value)
object c kind id = gets (λ db. find_object db (c, (kind, id)))

unfoldable pub object_digest : String → Kind → String → Action (Option String)
object_digest c kind id = gets (λ db. find_digest db (c, (kind, id)))

unfoldable pub object_id : Value → Kind → String
object_id v parameters = to_string (n v "generation")
object_id v epoch = to_string (n v "epoch")
object_id v device = s v "device_id"
object_id v envelope = s v "envelope_id"
object_id v compaction = s v "compaction_id"
object_id v admin = s v "operation_id"
object_id v sync_record = s v "record_id"
object_id v snapshot_part = s v "record_id"

-- The code of `conflict`
unfoldable pub conflict : Kind → Code
conflict sync_record = record_id_conflict
conflict snapshot_part = record_id_conflict
conflict device = device_id_conflict
conflict envelope = envelope_id_conflict
conflict admin = operation_id_conflict
conflict _ = import_conflict

-- Records and snapshot parts share their identifiers: the other kind of the two.
abbrev pub other_kind : Kind → Option Kind
other_kind sync_record = some snapshot_part
other_kind snapshot_part = some sync_record
other_kind _ = none

unfoldable pub taken_by_other : Db → String → Kind → String → Bool
taken_by_other db c kind id = elim (other_kind kind) [
  | none ↦ false
  | some other ↦ is_some (find_digest db (c, (other, id)))
]

-- The row of an object that stands at a place in a log, or in none.
abbrev pub log_of : Option (String × ℕ) → Option String
log_of none = none
log_of (some (id, seq)) = some id

abbrev pub seq_of : Option (String × ℕ) → Option ℕ
seq_of none = none
seq_of (some (id, seq)) = some seq

module _ ⦃x : External⦄ where
  unfoldable pub object_row : Value → Option (String × ℕ) → ObjectRow
  object_row v place = record {
    object_hash = object_hash v;
    body = some v;
    log_id = log_of place;
    relay_seq = seq_of place;
  }

  -- INSERT into v3_objects, with the unique index over records and snapshot parts.
  unfoldable pub insert_object : String → Kind → Value → Option (String × ℕ) → Action (Unit {0})
  insert_object c kind v place w =
      insert_unless
        (is_some (find_row (c, (kind, object_id v kind)) w.objects)
          || taken_by_other w.db c kind (object_id v kind))
        (λ db. record db {
          objects = add_row (c, (kind, object_id v kind)) (object_row v place) db.objects;
        })
        w

  -- What `put_object` does, by what stands under the identifier.
  unfoldable pub put_by_digest :
      Option String → String → Kind → Value → Option (String × ℕ) → Action Bool
  put_by_digest (some old) c kind v place =
      if old /= object_hash v then fail (conflict kind) else pure false
  put_by_digest none c kind v place = do
    clash ← gets (λ db. taken_by_other db c kind (object_id v kind))
    fail_if clash (conflict kind)
    insert_object c kind v place
    pure true

  -- Whether the object is new.
  unfoldable pub put_object : String → Kind → Value → Option (String × ℕ) → Action Bool
  put_object c kind v place = do
    found ← object_digest c kind (object_id v kind)
    put_by_digest found c kind v place
