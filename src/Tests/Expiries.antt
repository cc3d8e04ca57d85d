-- ===== src/Tests/Expiries.antt =====
-- A concrete run of the theorem on the expiry of envelopes (src/api/retention.rs).
use palla_sync.Prelude.{
  pair_eq, text_eq, refl, find_row, ◌≡◌, ◌∷◌, [], Option, some, none, ℕ, false, String, select_rows,
  update_rows,
}
use palla_sync.Json.{object, num, Value, ◌!◌}
use palla_sync.Error.{ok}
use palla_sync.Db.{kind_eq, Db, World, Kind, ObjectRow}
use palla_sync.Retention.{expire, expire_epochs, due_epochs}
use palla_sync.Retention.Expiry.{IsExpired, expire-IsExpired}
use palla_sync.Tests.{chain, empty_db, world}

abbrev envelope : ℕ → ObjectRow
envelope k = record {
  object_hash = "hash";
  body = some (object (("epoch", num k) ∷ []));
  log_id = some "log";
  relay_seq = some 1;
}

-- The handoff of epoch 3 is due, that of epoch 4 is not.
abbrev handed_off : World
handed_off = record world {
  db = record empty_db {
    objects =
        (("key", (Kind.envelope, "a")), envelope 3)
        ∷ (("key", (Kind.envelope, "b")), envelope 4)
        ∷ [];
    handoffs =
        (("key", 3), record { compaction_id = "c"; due_at_ms = 1000; expired = false })
        ∷ (("key", 4), record { compaction_id = "c"; due_at_ms = 2000; expired = false })
        ∷ [];
  };
}

abbrev body_of : String → Db → Option (Option Value)
body_of id db = elim (find_row ("key", (Kind.envelope, id)) db.objects) [
  | none ↦ none
  | some r ↦ some r.body
]

one_expired :
    (body_of "a" (expire chain handed_off).1.db ≡ some none)
    × (body_of "b" (expire chain handed_off).1.db ≡ some (envelope 4).body)
unfolding expire find_row expire_epochs due_epochs select_rows update_rows ◌!◌ object
one_expired = (refl, refl)

expire-IsExpired_example :
    ((expire chain handed_off).0 ≡ ok tt)
    × IsExpired chain 1500 handed_off.db (expire chain handed_off).1.db
expire-IsExpired_example = expire-IsExpired chain handed_off
