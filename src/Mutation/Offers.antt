-- ===== src/Mutation/Offers.antt =====
-- Enrollment by a peer: `offer`, `enrollment_request`, `approve` and `ack` of src/api/mutation.rs.
use palla_sync.Prelude.{
  ℕ, ◌+◌, Bool, true, false, not, ◌&&◌, ◌||◌, Option, none, some, List, [], ◌∷◌, String, ◌==◌, ◌/=◌,
  ltb, leb, nat_eq, text_eq, pair_eq, option_eq, is_some, find_row, add_row, update_row, count_rows,
  if◌then◌else◌, ◌++◌,
}
use palla_sync.Json.{Value, num, str, opt_str, ◌!◌, as_str, as_u64, object as json, s, n, value_beq}
use palla_sync.Error.{
  enrollment_not_allowed, invalid_field, offer_not_found, request_id_conflict,
  envelope_access_denied, epoch_stale, envelope_not_found,
}
use palla_sync.Crypto.Primitives.{External}
use palla_sync.Crypto.{object_hash}
use palla_sync.Db.{
  Chain, Kind, kind_eq, active, revoked, ObjectKey, ObjectRow, RegistryRow, OfferRow, OfferStatus,
  awaiting_approval, approved, rejected, Db,
}
use palla_sync.Db.Action.{
  Action, ◌>>=◌, ◌>>◌, pure, lift, gets, fail, fail_if, or_fail, require, modify, insert_unless,
  now,
}
use palla_sync.Config.{RelayConfig}
use palla_sync.Wire.Types.{Schema, fields, uuid, bytes, int}
use palla_sync.Wire.Signed.{verify}
use palla_sync.Wire.Validate.{ObjectKind, validate, differ_at}
use palla_sync.Store.Hashes.{generation, epoch_hash}
use palla_sync.Store.Outcomes.{outcomes, outcome}
use palla_sync.Auth.{Auth, is_admin, owns, active_device}
use palla_sync.Domain.{signing_context, allows}
use palla_sync.Mutation.{Reply, reply, or_new, repeated}
use palla_sync.Mutation.Enroll.{enroll}

abbrev offer_fields : Schema
offer_fields = ("request_id", uuid) ∷ ("offer_nonce", bytes 32) ∷ ("expires_at_ms", int) ∷ []

abbrev is_waiting : OfferRow → Bool
is_waiting r = elim r.status [ awaiting_approval ↦ true | _ ↦ false ]

-- INSERT INTO v3_offers
unfoldable pub insert_offer : Chain → String → Value → Action (Unit {0})
insert_offer c id offer w =
    insert_unless (is_some (find_row (c.chain_id, id) w.offers))
      (λ db. record db {
        offers =
            add_row (c.chain_id, id)
              (record {
                offer = offer;
                request = none;
                status = awaiting_approval;
                updated_seq = c.head_seq;
              })
              db.offers;
      })
      w

abbrev pub set_request : Value → OfferRow → OfferRow
set_request v r = record r { request = some v }

abbrev settle : OfferStatus → ℕ → OfferRow → OfferRow
settle status seq r = record r { status = status; updated_seq = seq }

abbrev offered : List String
offered = "chain_id" ∷ "generation" ∷ "request_id" ∷ "offer_nonce" ∷ []

abbrev pub activate : RegistryRow → RegistryRow
activate r = elim r.status [ revoked ↦ r | _ ↦ record r { status = active } ]

-- UPDATE v3_registry SET status='active' … AND status<>'revoked', with the trigger's history.
abbrev activated : String → String → RegistryRow → List (String × (String × RegistryRow))
activated c id r = elim r.status [ revoked ↦ [] | _ ↦ (c, (id, activate r)) ∷ [] ]

unfoldable pub activate_device : String → String → Db → Db
activate_device c id db = elim (find_row (c, id) db.registry) [
  | none ↦ db
  | some r ↦ record db {
    registry = update_row (c, id) activate db.registry;
    registry_history = activated c id r ++ db.registry_history;
  }
]

-- An envelope for a device in an epoch.
abbrev pub is_delivery : String → String → ℕ → ObjectKey → ObjectRow → Bool
is_delivery c id epoch k r = elim r.body [
  | none ↦ false
  | some v ↦
      (k.0 == c)
      && (k.1.0 == Kind.envelope)
      && (as_str (v ! "recipient_device_id") == some id)
      && (as_u64 (v ! "epoch") == some epoch)
]

abbrev pub scope_of : Bool → String
scope_of reject = if reject then "reject_request" else "approve_request"

module _ ⦃x : External⦄ where
  abbrev offer_object : Chain → Auth → Value → Value
  offer_object c auth v = json (
      ("chain_id", str c.chain_id)
      ∷ ("generation", num (generation c))
      ∷ ("request_id", str (s v "request_id"))
      ∷ ("offer_nonce", v ! "offer_nonce")
      ∷ ("offering_device_id", opt_str auth.device_id)
      ∷ ("expires_at_ms", num (n v "expires_at_ms"))
      ∷ [])

  -- The clock is read twice.
  unfoldable pub new_offer : Chain → Auth → Value → Action Reply
  new_offer c auth v = do
    let expires = n v "expires_at_ms"
    first ← now
    fail_if (leb expires first) invalid_field
    second ← now
    fail_if (ltb (second + 300000) expires) invalid_field
    let o = offer_object c auth v
    insert_offer c (s v "request_id") o
    let response = json (
        ("request_id", str (s v "request_id"))
        ∷ ("expires_at_ms", num expires)
        ∷ ("offer_hash", str (object_hash o))
        ∷ [])
    outcome c.chain_id "offer" (s v "request_id") v response
    pure (reply 201 response c)

  unfoldable pub offer : Chain → Auth → Value → Action Reply
  unfolding new_offer
  offer c auth v = do
    lift (fields v offer_fields [])
    fail_if (is_admin auth) enrollment_not_allowed
    fail_if (not (allows c "allow_peer_enrollment")) enrollment_not_allowed
    known ← outcomes c.chain_id "offer" (s v "request_id") v
    or_new known (repeated c) (new_offer c auth v)

  abbrev request_response : Value → Value
  request_response v = json (
      ("request_id", v ! "request_id")
      ∷ ("status", str "awaiting_approval")
      ∷ ("request_hash", str (object_hash v))
      ∷ [])

  -- The source reads the clock once for each test that comes to it.
  unfoldable pub check_window : Chain → Value → Value → Bool → Action (Unit {0})
  check_window c v o waiting = do
    fail_if (not waiting || generation c /= n o "generation") offer_not_found
    t₁ ← now
    fail_if (ltb (n o "expires_at_ms" + 60000) t₁) offer_not_found
    fail_if (ltb (n o "expires_at_ms") (n v "expires_at_ms")) offer_not_found
    t₂ ← now
    fail_if (ltb (t₂ + 60000) (n v "created_at_ms")) offer_not_found
    t₃ ← now
    fail_if (ltb (n v "expires_at_ms" + 60000) t₃) offer_not_found

  unfoldable pub store_request : Chain → Value → Option Value → Action Reply
  store_request c v none =
      modify (λ db. record db {
        offers = update_row (c.chain_id, s v "request_id") (set_request v) db.offers;
      })
      >> pure (reply 201 (request_response v) c)
  store_request c v (some old) =
      if not (value_beq old v)
      then fail request_id_conflict
      else pure (reply 200 (request_response v) c)

  unfoldable pub enrollment_request : Chain → Value → Action Reply
  unfolding check_window store_request
  enrollment_request c v = do
    or_fail (lift (validate v ObjectKind.request)) offer_not_found
    found ← gets (λ db. find_row (c.chain_id, s v "request_id") db.offers)
    row ← require found offer_not_found
    check_window c v row.offer (is_waiting row)
    fail_if (differ_at offered v row.offer) offer_not_found
    _ ← or_fail (active_device c (s row.offer "offering_device_id")) offer_not_found
    or_fail
        (lift (verify v (s v "device_public_key") (signing_context "PALLASYNC-ENROLL-REQUEST-v3")))
        offer_not_found
    store_request c v row.request

  -- A rejection names the request that it means.
  unfoldable pub reject_request : Chain → String → Value → Value → Action Reply
  reject_request c id v r = do
    lift (fields v (("request_hash", bytes 32) ∷ []) [])
    fail_if (s v "request_hash" /= object_hash r) request_id_conflict
    pure (reply 200 (json (("request_id", str id) ∷ ("status", str "rejected") ∷ [])) c)

  unfoldable pub settle_request :
      Chain → RelayConfig → Auth → String → Value → Bool → OfferRow → Value → Action Reply
  unfolding reject_request
  settle_request c cfg auth id v reject row r = do
    fail_if (not (is_waiting row)) offer_not_found
    t ← now
    fail_if (ltb (n r "expires_at_ms" + 60000) t) offer_not_found
    fail_if (not reject && not (allows c "allow_peer_enrollment")) enrollment_not_allowed
    done ← (if reject then reject_request c id v r else enroll c cfg auth v (some r))
    modify (λ db. record db {
      offers =
          update_row (c.chain_id, id)
            (settle (if reject then rejected else approved) done.chain.head_seq) db.offers;
    })
    outcome c.chain_id (scope_of reject) id v done.response
    pure done

  unfoldable pub approve : Chain → RelayConfig → Auth → String → Value → Bool → Action Reply
  unfolding settle_request
  approve c cfg auth id v reject = do
    found ← gets (λ db. find_row (c.chain_id, id) db.offers)
    row ← require found offer_not_found
    r ← require row.request offer_not_found
    fail_if (not (owns auth (s row.offer "offering_device_id"))) enrollment_not_allowed
    known ← outcomes c.chain_id (scope_of reject) id v
    or_new known (repeated c) (settle_request c cfg auth id v reject row r)

  -- A device acknowledges the keys of the chain's epoch.
  unfoldable pub ack : Chain → Auth → String → Value → Action Value
  ack c auth id v = do
    lift (fields v (("epoch_hash", bytes 32) ∷ ("epoch_commitment", bytes 32) ∷ []) [])
    fail_if (is_admin auth || not (owns auth id)) envelope_access_denied
    fail_if
        (s v "epoch_hash" /= epoch_hash c
          || not (value_beq (v ! "epoch_commitment") (c.epoch ! "epoch_commitment")))
        epoch_stale
    count ← gets (λ db. count_rows (is_delivery c.chain_id id (n c.epoch "epoch")) db.objects)
    fail_if (count == 0) envelope_not_found
    modify (activate_device c.chain_id id)
    pure (
        json (
          ("device_id", str id)
          ∷ ("status", str "active")
          ∷ ("epoch_hash", str (epoch_hash c))
          ∷ []))
