-- ===== src/Tests/Evidence.antt =====
-- Concrete runs of the theorems on the store (src/api/store.rs) and the operations on a chain.
use palla_sync.Deletion.Erasure.{incomplete}
use palla_sync.Decimal.{to_string}
use palla_sync.Json.{null}
use palla_sync.Prelude.{
  false, arith, nat_eq, text_eq, pair_eq, find_row, ◌==◌, ◌≡◌, refl, all, update_row, count_rows,
  some, none, true, false, ◌∷◌, [], upsert, ==_iff, contains, select_rows,
}
use palla_sync.Json.{remove, set_member, insert, object, s, n, get, lookup, ◌!◌, Value, str, null}
use palla_sync.Error.{ok, err, failed, storage_unavailable}
use palla_sync.Db.{Kind, World, revoked}
use palla_sync.Store.Append.{
  Appended, append, append_by_digest, append_new, enter, place_object, insert_log, accept,
  make_receipt, store_receipt, log_entry,
}
use palla_sync.Tests.{sample, relay, world, chain, note, empty_db}
use palla_sync.Store.Objects.{
  object_digest, find_digest, object_id, put_object, put_by_digest, taken_by_other, insert_object,
  object_row, conflict,
}
use palla_sync.Crypto.{
  object_hash, hash_bytes, sign_relay, verify_signature, decode, prime_point, signing_bytes,
  in_alphabet,
}
use palla_sync.Store.Transparency.{transparency, insert_transparency, transparency_entry, Recorded}
use palla_sync.Store.Hashes.{link_hash, initial_hash, parameters_hash, epoch_hash}
use palla_sync.Invariant.Revoked.{is_revoked}
use palla_sync.Store.Append.Repeat.{append-append, append-stored, append-conflict}
use palla_sync.Store.Linked.{HasLinkedTransparency, HasLinkedLog, begin}
use palla_sync.Store.Quota.{save, publish_head, quota, used, sum_rows, transparency_head}
use palla_sync.Store.Outcomes.{outcome, outcomes, outcome_conflict, OutcomeKey, outcome-outcomes}
use palla_sync.Invariant.Exclusive.{is_shared, run-exclusive}
use palla_sync.Invariant.Runs.{
  appending, after, completing, erases, run, Operation, acknowledging, run-digest, run-revoked,
}
use palla_sync.Store.Linked.Kept.{append-HasLinkedLog}
use palla_sync.Store.Linked.Transparency.{transparency-HasLinkedTransparency}
use palla_sync.Store.Quota.Laws.{IsSaved, save-ok}

abbrev appended : World
appended = (append ⦃x = sample⦄ chain relay Kind.sync_record (note 4) world).1

first_append :
    (a : Appended) × (append ⦃x = sample⦄ chain relay Kind.sync_record (note 4) world
      ≡ (ok a, appended))
unfolding append append_by_digest append_new object_digest find_digest find_row object_id
    object_hash hash_bytes enter put_object put_by_digest taken_by_other insert_object object_row
    place_object insert_log accept transparency insert_transparency transparency_entry make_receipt
    store_receipt sign_relay verify_signature decode prime_point signing_bytes all in_alphabet
    remove link_hash log_entry set_member insert update_row count_rows object s n get lookup ◌!◌
    to_string initial_hash
first_append = (_, refl)

same_id : object_id (note 5) Kind.sync_record ≡ object_id (note 4) Kind.sync_record
unfolding object_id s ◌!◌ lookup get object insert
same_id = refl

stored_digest :
    find_digest appended.db ("key", (Kind.sync_record, "r1"))
    ≡ some (object_hash ⦃x = sample⦄ (note 4))
unfolding object_id s ◌!◌ lookup get object insert
stored_digest =
    append-stored ⦃x = sample⦄ chain relay Kind.sync_record (note 4) world first_append.0 appended
      first_append.1

abbrev revoked_world : World
revoked_world = record world {
  db = record empty_db {
    registry =
        (
          ("key", "d1"),
          record { generation = 0; status = revoked; enrolled_seq = 1; revoked_seq = some 2 },
        )
        ∷ [];
  };
}

abbrev acknowledgement : Operation
acknowledgement =
    acknowledging (record { token = null; device_id = some "d1" }) "d1"
      (object (("epoch_hash", str "key") ∷ ("epoch_commitment", str "key") ∷ []))

revoked_first : is_revoked (find_row ("key", "d1") revoked_world.registry) ≡ true
unfolding find_row
revoked_first = refl

abbrev recorded : World
recorded = (outcome ⦃x = sample⦄ "key" "genesis" "key" (note 4) (note 5) world).1

first_outcome :
    outcome ⦃x = sample⦄ "key" "genesis" "key" (note 4) (note 5) world ≡ (ok tt, recorded)
unfolding outcome find_row
first_outcome = refl

abbrev noted : World
noted = (transparency ⦃x = sample⦄ chain relay "accept" "key" (some 1) none world).1

first_entry :
    (t : Recorded) × (transparency ⦃x = sample⦄ chain relay "accept" "key" (some 1) none world
      ≡ (ok t, noted))
unfolding transparency insert_transparency transparency_entry sign_relay verify_signature decode
    prime_point signing_bytes all in_alphabet remove set_member insert object find_row link_hash
    object_hash hash_bytes initial_hash n ◌!◌ lookup get to_string
first_entry = (_, refl)

abbrev saved : World
saved = (save ⦃x = sample⦄ chain relay world).1

saving_works : save ⦃x = sample⦄ chain relay world ≡ (ok tt, saved)
unfolding save publish_head quota used sum_rows transparency_head sign_relay verify_signature decode
    prime_point signing_bytes all in_alphabet remove set_member insert object find_row upsert
    object_hash hash_bytes initial_hash parameters_hash epoch_hash n ◌!◌ lookup get to_string
saving_works = refl

append-append_example : append ⦃x = sample⦄ chain relay Kind.sync_record (note 4) appended ≡ (
  ok (record { chain = chain; entry = first_append.0.entry; receipt = first_append.0.receipt }),
  appended,
)
append-append_example =
    append-append ⦃x = sample⦄ chain chain relay Kind.sync_record (note 4) world first_append.0
      appended refl first_append.1

notes_apart : (object_hash ⦃x = sample⦄ (note 5) == object_hash ⦃x = sample⦄ (note 4)) ≡ false
unfolding object_hash hash_bytes n ◌!◌ lookup get object insert to_string
notes_apart = refl

notes_differ : ¬ (object_hash ⦃x = sample⦄ (note 5) ≡ object_hash ⦃x = sample⦄ (note 4))
notes_differ e =
    let h = object_hash ⦃x = sample⦄ (note 5) in
    let h' = object_hash ⦃x = sample⦄ (note 4) in ground (arith, notes_apart, ==_iff h h', e)

append-conflict_example :
    append ⦃x = sample⦄ chain relay Kind.sync_record (note 5) appended
    ≡ (err (failed (conflict Kind.sync_record)), appended)
append-conflict_example =
    append-conflict ⦃x = sample⦄ chain chain relay Kind.sync_record (note 4) (note 5) world
      first_append.0 appended refl same_id notes_differ first_append.1

append-HasLinkedLog_example : HasLinkedLog ⦃x = sample⦄ appended.db first_append.0.chain
append-HasLinkedLog_example =
    append-HasLinkedLog ⦃x = sample⦄ chain relay Kind.sync_record (note 4) world first_append.0
      appended first_append.1 begin

-- The deletion of another chain is open.
abbrev deleting : World
deleting = record appended {
  db = record appended.db {
    deletions =
        (
          "other",
          record {
            deleting_device_id = none;
            admin_public_key = "admin";
            device_public_key = none;
            proof = object (("ledger", object (("completed_at_ms", null) ∷ [])) ∷ []);
            outcome = null;
            request_hash = "hash";
          },
        )
        ∷ [];
  };
}

spares_key : erases (completing false) deleting.db "key" ≡ false
unfolding contains incomplete select_rows ◌!◌ object
spares_key = refl

run-digest_example :
    find_digest
      (after ⦃x = sample⦄ relay chain (completing false) deleting).db
      ("key", (Kind.sync_record, "r1"))
    ≡ some (object_hash ⦃x = sample⦄ (note 4))
unfolding append object_digest append_by_digest find_digest
run-digest_example =
    run-digest ⦃x = sample⦄ relay chain (completing false) deleting
      ("key", (Kind.sync_record, "r1")) (object_hash ⦃x = sample⦄ (note 4)) spares_key stored_digest

abbrev one_record : World
one_record = record world {
  db = record empty_db {
    objects = (("key", (Kind.sync_record, "r1")), object_row ⦃x = sample⦄ (note 4) none) ∷ [];
  };
}

alone : is_shared "key" "r1" one_record.db ≡ false
unfolding find_digest find_row
alone = refl

-- A snapshot part under the identifier of a record.
run-exclusive_example :
    is_shared "key" "r1"
      (run ⦃x = sample⦄ relay chain (appending Kind.snapshot_part (note 4)) one_record).db
    ≡ false
run-exclusive_example =
    run-exclusive ⦃x = sample⦄ relay chain (appending Kind.snapshot_part (note 4)) one_record "key"
      "r1" alone

run-revoked_example :
    is_revoked
      (find_row ("key", "d1") (run ⦃x = sample⦄ relay chain acknowledgement revoked_world).registry)
    ≡ true
run-revoked_example =
    run-revoked ⦃x = sample⦄ relay chain acknowledgement revoked_world ("key", "d1") revoked_first

outcome-outcomes_example :
    (outcomes ⦃x = sample⦄ "key" "genesis" "key" (note 4) recorded ≡ (ok (some (note 5)), recorded))
    × (((other : Value)
          → (object_hash ⦃x = sample⦄ (note 4) == object_hash ⦃x = sample⦄ other) ≡ false
          → outcomes ⦃x = sample⦄ "key" "genesis" "key" other recorded
            ≡ (err (failed (outcome_conflict "genesis")), recorded))
        × (((other again : Value)
              → outcome ⦃x = sample⦄ "key" "genesis" "key" other again recorded
                ≡ (err (failed storage_unavailable), recorded))
            × ((k : OutcomeKey) (other : Value)
                → ¬ (k ≡ ("key", ("genesis", "key")))
                → (outcomes ⦃x = sample⦄ k.0 k.1.0 k.1.1 other recorded).0
                  ≡ (outcomes ⦃x = sample⦄ k.0 k.1.0 k.1.1 other world).0)))
outcome-outcomes_example =
    outcome-outcomes ⦃x = sample⦄ "key" "genesis" "key" (note 4) (note 5) world recorded
      first_outcome

save-ok_example : (v : Value) × IsSaved ⦃x = sample⦄ chain relay world saved v
save-ok_example = save-ok ⦃x = sample⦄ chain relay world saved saving_works

transparency-HasLinkedTransparency_example :
    HasLinkedTransparency ⦃x = sample⦄ "key" noted.db first_entry.0.chain
transparency-HasLinkedTransparency_example =
    transparency-HasLinkedTransparency ⦃x = sample⦄ chain relay "accept" "key" (some 1) none world
      first_entry.0 noted "key" first_entry.1 begin
