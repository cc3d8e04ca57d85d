-- ===== src/Tests/Deletions.antt =====
-- Concrete runs of the theorems on deletions (src/api/deletion.rs).
use palla_sync.Crypto.{sign_relay}
use palla_sync.Db.Action.{transaction}
use palla_sync.Store.Objects.{find_object}
use palla_sync.Prelude.{
  refl, String, count_rows, some, select_rows, contains, ◌≡◌, [], true, false, Bool, text_eq, ◌∷◌,
  ◌≢◌, none, List, ◌↔◌, find_row,
}
use palla_sync.Db.{World, Db, ObjectKey, ObjectRow, Kind}
use palla_sync.Deletion.Erasure.Laws.{IsErased, IsUntouched, IsPublished, erase-IsErased}
use palla_sync.Deletion.Certificates.{walk_from, walk, enough}
use palla_sync.Deletion.Erasure.Completion.{is_bare}
use palla_sync.Deletion.Erasure.{
  incomplete, complete, erase, keys_of, complete_rows, erase_chains, erase_chain, complete_row,
  complete_at,
}
use palla_sync.Json.{Value, object, str, null, s, ◌!◌}
use palla_sync.Tests.{empty_db, sample, world, chain, relay}
use palla_sync.Error.{ok}
use palla_sync.Deletion.Erasure.Completion.{complete-incomplete}
use palla_sync.Deletion.Certificates.Exact.{Leads, walk_from-Leads}

abbrev device_row : String → Value → (ObjectKey × ObjectRow)
device_row id cert = (
  ("key", (Kind.device, id)),
  record {
    object_hash = "key";
    body = some (object (("enrollment", cert) ∷ []));
    log_id = none;
    relay_seq = none;
  },
)

abbrev from_admin : Value
from_admin = object (("signer_kind", str "admin") ∷ [])

abbrev from_peer : Value
from_peer = object (("signer_kind", str "device") ∷ ("signer_device_id", str "d1") ∷ [])

abbrev initial_proof : Value
initial_proof = object (
    ("ledger", object (("completed_at_ms", null) ∷ ("receipt_hash", str "key") ∷ []))
    ∷ ("delete_receipt", object (("completed_at_ms", null) ∷ []))
    ∷ [])

abbrev deleting_db : Db
deleting_db = record empty_db {
  chains = ("key", chain) ∷ [];
  objects = device_row "d1" from_admin ∷ device_row "d2" from_peer ∷ [];
  deletions =
      (
        "key",
        record {
          deleting_device_id = some "d2";
          admin_public_key = "key";
          device_public_key = some "key";
          proof = initial_proof;
          outcome = null;
          request_hash = "key";
        },
      )
      ∷ [];
}

abbrev deleting : World
deleting = record world { db = deleting_db }

two_steps : walk_from deleting_db "key" (some "d2") ≡ ok (from_peer ∷ from_admin ∷ [])
unfolding walk contains find_object find_row s object
two_steps = refl

walk_from-Leads_example :
    (walk deleting_db "key" (enough deleting_db) "d2" [] ≢ none)
    × ((certs : List Value)
        → (walk_from deleting_db "key" (some "d2") ≡ ok certs) ↔ Leads deleting_db "key" "d2" certs)
walk_from-Leads_example = walk_from-Leads deleting_db "key" "d2"

listed : contains (keys_of (incomplete deleting_db)) "key" ≡ true
unfolding incomplete select_rows contains ◌!◌ object
listed = refl

erase-IsErased_example :
    ((c : String)
      → contains (keys_of (incomplete deleting_db)) c ≡ true
      → IsErased c (erase true deleting).1.db)
    × (((c : String)
          → contains (keys_of (incomplete deleting_db)) c ≡ false
          → IsUntouched c deleting_db (erase true deleting).1.db)
        × IsPublished deleting_db (erase true deleting).1.db)
erase-IsErased_example = erase-IsErased true deleting

erased : IsErased "key" (erase true deleting).1.db
erased = erase-IsErased_example.0 "key" listed

abbrev completed : World
completed = (complete ⦃x = sample⦄ false relay deleting).1

completes : complete ⦃x = sample⦄ false relay deleting ≡ (ok tt, completed)
unfolding complete erase incomplete select_rows ◌!◌ object transaction complete_rows erase_chains
    erase_chain complete_row complete_at sign_relay
completes = refl

well_formed : count_rows is_bare deleting_db.deletions ≡ 0
unfolding count_rows object ◌!◌
well_formed = refl

complete-incomplete_example :
    (incomplete completed.db ≡ [])
    × ((again : Bool) → complete ⦃x = sample⦄ again relay completed ≡ (ok tt, completed))
complete-incomplete_example =
    complete-incomplete ⦃x = sample⦄ false relay deleting completed well_formed completes
