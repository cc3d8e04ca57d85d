-- ===== src/Invariant/Revoked.antt =====
-- The status of a revoked device under the writes of src/api/mutation.rs.
use palla_sync.Mutation.Snapshots.{prune_records}
use palla_sync.Store.Outcomes.{outcome}
use palla_sync.Store.Transparency.{insert_transparency}
use palla_sync.Store.Append.{place_object, insert_log, store_receipt}
use palla_sync.Store.Objects.{insert_object}
use palla_sync.Retention.{hand_off, expire_epoch}
use palla_sync.Store.Quota.{publish_head}
use palla_sync.Prelude.{
  ℕ, Bool, true, false, Option, none, some, List, [], ◌∷◌, String, ◌≡◌, refl, arith, find_row,
  update_row, find_row-update_row, find_row-new, pair_eq, text_eq, Table, Option-cases, inl, inr,
  is_some,
}
use palla_sync.Json.{Value, s, n}
use palla_sync.Crypto.Primitives.{External}
use palla_sync.Db.{revoked, Db, Chain, Status, RegistryRow}
use palla_sync.Db.Keeps.{Keeps, Keeps-insert}
use palla_sync.Invariant.{IsStable, insert_deletion, reserve_payload_nonce}
use palla_sync.Domain.Devices.{with_registry, register}
use palla_sync.Domain.Commit.{revoke, revoke_row, revoke_all}
use palla_sync.Mutation.Offers.{activate, activate_device, insert_offer}
use palla_sync.Deletion.{insert_deletion}
use palla_sync.Domain.Records.{reserve_payload_nonce}

abbrev pub is_revoked : Option RegistryRow → Bool
is_revoked none = false
is_revoked (some r) = elim r.status [ revoked ↦ true | _ ↦ false ]

abbrev pub IsRevoked : String × String → Db → Type 0
IsRevoked k db = is_revoked (find_row k db.registry) ≡ true

-- An update that keeps revoked rows revoked.
update_row-IsRevoked :
    (j k : String × String) (f : RegistryRow → RegistryRow)
    (rows : Table (String × String) RegistryRow)
    → ((r : RegistryRow) → is_revoked (some r) ≡ true → is_revoked (some (f r)) ≡ true)
    → is_revoked (find_row k rows) ≡ true
    → is_revoked (find_row k (update_row j f rows)) ≡ true
update_row-IsRevoked j k f rows stays h = elim (Option-cases (find_row k rows)) [
  | inl e ↦ absurd (ground (arith, h, e))
  | inr (r, e) ↦ ground (arith, h, e, find_row-update_row j k f rows, stays r)
]

activate-revoked :
    (r : RegistryRow) → is_revoked (some r) ≡ true → is_revoked (some (activate r)) ≡ true
activate-revoked r h = ground arith

module _ ⦃x : External⦄ (k : String × String) where
  revoke-IsRevoked :
      (c : String) (seq : ℕ) (id : String) (db : Db)
      → IsRevoked k db
      → IsRevoked k (revoke c seq id db)
  unfolding revoke
  revoke-IsRevoked c seq id db h =
      update_row-IsRevoked (c, id) k (revoke_row seq) db.registry (λ r e. refl) h

  revoke_all-IsRevoked :
      (c : String) (seq : ℕ) (ids : List String) (db : Db)
      → IsRevoked k db
      → IsRevoked k (revoke_all c seq ids db)
  unfolding revoke_all
  revoke_all-IsRevoked c seq [] db h = h
  revoke_all-IsRevoked c seq (id ∷ ids) db h =
      revoke_all-IsRevoked c seq ids (revoke c seq id db) (revoke-IsRevoked c seq id db h)

  activate_device-IsRevoked :
      (c id : String) (db : Db) → IsRevoked k db → IsRevoked k (activate_device c id db)
  unfolding activate_device
  activate_device-IsRevoked c id db h = elim (Option-cases (find_row (c, id) db.registry)) [
    | inl e ↦ ground (arith, e, h)
    | inr (r, e) ↦
        ground (arith, e, h, update_row-IsRevoked (c, id) k activate db.registry activate-revoked h)
  ]

  register-IsRevoked :
      (c : Chain) (v : Value) (seq : ℕ) (status : Status)
      → Keeps (IsRevoked k) (register c v seq status)
  unfolding register
  register-IsRevoked c v seq status =
      let key : String × String = (c.chain_id, s v "device_id") in
      let row : RegistryRow = record {
        generation = n v "generation";
        status = status;
        enrolled_seq = seq;
        revoked_seq = none;
      } in
      Keeps-insert (λ w. is_some (find_row key w.registry))
        (λ w. with_registry c.chain_id (s v "device_id") row)
        (λ w new h. elim (Option-cases (find_row k w.registry)) [
          | inl e ↦ absurd (ground (arith, h, e))
          | inr (r, e) ↦ ground (arith, h, e, find_row-new k key r row w.registry e new)
        ])

  publish_head-IsRevoked :
      (c : Chain) (v : Value) (db : Db) → IsRevoked k db → IsRevoked k (publish_head c v db)
  unfolding publish_head
  publish_head-IsRevoked c v db h = ground arith

  hand_off-IsRevoked :
      (c : Chain) (v : Value) (epoch due : ℕ) (db : Db)
      → IsRevoked k db
      → IsRevoked k (hand_off c v epoch due db)
  unfolding hand_off
  hand_off-IsRevoked c v epoch due db h = ground arith

  pub IsRevoked-IsStable : IsStable (IsRevoked k)
  unfolding insert_object place_object insert_log store_receipt insert_transparency outcome
      insert_offer prune_records expire_epoch insert_deletion reserve_payload_nonce
  IsRevoked-IsStable = record {
    inserts_object = λ c kind v place. record { at = λ w h. ground arith };
    places_object = λ c kind id seq. record { at = λ w h. h };
    inserts_log = λ c seq entry hash. record { at = λ w h. ground arith };
    stores_receipt = λ c kind id seq r. record { at = λ w h. ground arith };
    inserts_transparency = λ c entry hash. record { at = λ w h. ground arith };
    inserts_outcome = λ c scope id payload response. record { at = λ w h. ground arith };
    registers = register-IsRevoked;
    revokes = revoke_all-IsRevoked;
    activates = activate_device-IsRevoked;
    inserts_offer = λ c id o. record { at = λ w h. ground arith };
    updates_offers = λ j f db h. h;
    sets_notice = λ id v db h. h;
    sets_chain = λ id c db h. h;
    publishes = publish_head-IsRevoked;
    prunes = λ c through db h. h;
    hands_off = hand_off-IsRevoked;
    expires = λ c epoch db h. h;
    inserts_deletion = λ c d. record { at = λ w h. ground arith };
    reserves_nonce = λ c v. record { at = λ w h. ground arith };
  }
