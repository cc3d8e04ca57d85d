-- ===== src/Domain/Records/Nonces.antt =====
-- Nonces of payloads (`record` and `reserve_payload_nonce` of src/api/domain.rs).
use palla_sync.Prelude.{
  Bool, false, some, ◌≡◌, arith, find_row, text_eq, nat_eq, pair_eq, ==_iff, beq_self, Option-cases,
  inl, inr,
}
use palla_sync.Json.{Value, s}
use palla_sync.Error.{ok}
use palla_sync.Crypto.Primitives.{External}
use palla_sync.Db.{Chain, World}
use palla_sync.Store.Objects.{object, object_digest}
use palla_sync.Auth.{Auth, active_device, registry_status}
use palla_sync.Domain.Records.{
  reserve_payload_nonce, nonce_taken, payload_key, earlier_part, current_record, check_record,
}

-- The row of a nonce after its reservation names the record that holds it.
nonce_row :
    (c : Chain) (v : Value) (w : World)
    → nonce_taken c v w.db ≡ false
    → find_row (payload_key c v) (reserve_payload_nonce c v w).1.payload_nonces
      ≡ some (s v "record_id")
unfolding reserve_payload_nonce nonce_taken find_row
nonce_row c v w h = elim (Option-cases (find_row (payload_key c v) w.payload_nonces)) [
  | inl free ↦ ground (arith, h, free, beq_self (payload_key c v))
  | inr (id, old) ↦ ground (arith, h, old, ==_iff id (s v "record_id"))
]

module _ ⦃x : External⦄ where
  current_record-nonce :
      (c : Chain) (u : Value) (auth : Auth) (w : World) {b : Bool} {w' : World}
      → current_record c u auth w ≡ (ok b, w')
      → nonce_taken c u w.db ≡ false
  unfolding current_record active_device object registry_status nonce_taken
  current_record-nonce c u auth w h = ground (arith, h)

  earlier_part-nonce :
      (c : Chain) (u : Value) (w : World) {b : Bool} {w' : World}
      → earlier_part c u w ≡ (ok b, w')
      → nonce_taken c u w.db ≡ false
  unfolding earlier_part object nonce_taken
  earlier_part-nonce c u w h = ground (arith, h)

  check_record-nonce :
      (c : Chain) (u : Value) (auth : Auth) (snapshot : Bool) (w w' : World)
      → check_record c u auth snapshot false w ≡ (ok false, w')
      → nonce_taken c u w.db ≡ false
  unfolding check_record object_digest
  check_record-nonce c u auth snapshot w w' h = ground (
    arith,
    h,
    current_record-nonce c u auth w {b = false} {w' = w'},
    earlier_part-nonce c u w {b = false} {w' = w'},
  )

  -- Once the nonce of a payload is reserved for a record and the reservation is still there, a record
  -- of the same epoch with the same nonce that is not staged passes as a new one only under the same
  -- identifier.
  pub reserve_payload_nonce-check_record :
      (c : Chain) (v u : Value) (auth : Auth) (snapshot : Bool) (w later after : World)
      → nonce_taken c v w.db ≡ false
      → payload_key c u ≡ payload_key c v
      → find_row (payload_key c v) later.payload_nonces
        ≡ find_row (payload_key c v) (reserve_payload_nonce c v w).1.payload_nonces
      → check_record c u auth snapshot false later ≡ (ok false, after)
      → s u "record_id" ≡ s v "record_id"
  unfolding nonce_taken
  reserve_payload_nonce-check_record c v u auth snapshot w later after new same kept h = ground (
    arith,
    nonce_row c v w new,
    check_record-nonce c u auth snapshot later after h,
    same,
    kept,
    ==_iff (s u "record_id") (s v "record_id"),
    ==_iff (s v "record_id") (s u "record_id"),
  )
