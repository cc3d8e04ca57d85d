-- ===== src/Invariant/Operations.antt =====
-- The other operations of src/api/mutation.rs, and those of src/api/retention.rs, keep an invariant
-- that each write keeps.
use palla_sync.Prelude.{
  ◌/=◌, Bool, true, Option, none, some, List, [], ◌∷◌, String, pair_eq, nat_eq, text_eq,
}
use palla_sync.Json.{Value, ◌!◌, s}
use palla_sync.Crypto.Primitives.{External}
use palla_sync.Db.{Chain, Db, OfferRow}
use palla_sync.Db.Keeps.{Keeps, Keeps-bind, Keeps-fail_if, Keeps-modify, keeps_rules}
use palla_sync.Config.{RelayConfig}
use palla_sync.Auth.{Auth}
use palla_sync.Invariant.{IsStable}
use palla_sync.Invariant.Appending.{outcomes-Keeps}
use palla_sync.Invariant.Checks.{
  check_device-Keeps, bundle-Keeps, admin_operation-Keeps, active_device-Keeps,
}
use palla_sync.Mutation.Epochs.{check_operation, check_staged, change_epoch, check_epoch, new_epoch}
use palla_sync.Invariant.Enrolling.{or_new-Keeps, commit_epoch-Keeps, enroll-Keeps}
use palla_sync.Mutation.Offers.{
  offer, store_request, approve, new_offer, enrollment_request, ack, settle_request, check_window,
  reject_request,
}
use palla_sync.Error.{enrollment_certificate_invalid}

module _ ⦃x : External⦄ {P : Db → Type 0} (stable : IsStable P) where
  check_staged-Keeps : (c : Chain) (ds : List Value) → Keeps P (check_staged c ds)
  unfolding check_staged
  check_staged-Keeps c [] = search keeps_rules
  check_staged-Keeps c (d ∷ ds) =
      let by_peer = s (d ! "enrollment") "signer_kind" /= "admin" in
      Keeps-bind _ _ (check_device-Keeps c d none true) λ _.
        Keeps-bind _ _ (Keeps-fail_if by_peer enrollment_certificate_invalid)
          λ _. check_staged-Keeps c ds

  check_operation-Keeps :
      (c : Chain) (auth : Auth) (v : Value) (device : Option String)
      → Keeps P (check_operation c auth v device)
  unfolding check_operation
  check_operation-Keeps c auth v device = search (keeps_rules, admin_operation-Keeps)

  check_epoch-Keeps :
      (c : Chain) (cfg : RelayConfig) (auth : Auth) (v : Value) (device : Option String)
      → Keeps P (check_epoch c cfg auth v device)
  unfolding check_epoch
  check_epoch-Keeps c cfg auth v device =
      search (keeps_rules, check_staged-Keeps, check_operation-Keeps, bundle-Keeps) depth 24

  new_epoch-Keeps :
      (c : Chain) (cfg : RelayConfig) (auth : Auth) (v : Value) (device : Option String)
      → Keeps P (new_epoch c cfg auth v device)
  unfolding new_epoch
  new_epoch-Keeps c cfg auth v device =
      search (keeps_rules, check_epoch-Keeps, commit_epoch-Keeps stable, stable.inserts_outcome)

  pub change_epoch-Keeps :
      (c : Chain) (cfg : RelayConfig) (auth : Auth) (v : Value) (device : Option String)
      → Keeps P (change_epoch c cfg auth v device)
  unfolding change_epoch
  change_epoch-Keeps c cfg auth v device =
      search (keeps_rules, outcomes-Keeps stable, or_new-Keeps, new_epoch-Keeps) depth 16

  new_offer-Keeps : (c : Chain) (auth : Auth) (v : Value) → Keeps P (new_offer c auth v)
  unfolding new_offer
  new_offer-Keeps c auth v =
      search (keeps_rules, stable.inserts_offer, stable.inserts_outcome) depth 16

  pub offer-Keeps : (c : Chain) (auth : Auth) (v : Value) → Keeps P (offer c auth v)
  unfolding offer
  offer-Keeps c auth v =
      search (keeps_rules, outcomes-Keeps stable, or_new-Keeps stable, new_offer-Keeps) depth 16

  check_window-Keeps :
      (c : Chain) (v o : Value) (waiting : Bool) → Keeps P (check_window c v o waiting)
  unfolding check_window
  check_window-Keeps c v o waiting = search keeps_rules depth 24

  store_request-Keeps :
      (c : Chain) (v : Value) (old : Option Value) → Keeps P (store_request c v old)
  unfolding store_request
  store_request-Keeps c v none = search (keeps_rules, Keeps-modify, stable.updates_offers)
  store_request-Keeps c v (some old) = search keeps_rules

  pub enrollment_request-Keeps : (c : Chain) (v : Value) → Keeps P (enrollment_request c v)
  unfolding enrollment_request
  enrollment_request-Keeps c v =
      search (keeps_rules, check_window-Keeps, active_device-Keeps, store_request-Keeps) depth 24

  reject_request-Keeps : (c : Chain) (id : String) (v r : Value) → Keeps P (reject_request c id v r)
  unfolding reject_request
  reject_request-Keeps c id v r = search keeps_rules

  settle_request-Keeps :
      (c : Chain) (cfg : RelayConfig) (auth : Auth) (id : String) (v : Value) (reject : Bool)
      (row : OfferRow) (r : Value)
      → Keeps P (settle_request c cfg auth id v reject row r)
  unfolding settle_request
  settle_request-Keeps c cfg auth id v reject row r =
      search
        (
          keeps_rules,
          reject_request-Keeps,
          enroll-Keeps stable,
          Keeps-modify,
          stable.updates_offers,
          stable.inserts_outcome,
        )
        depth 24

  pub approve-Keeps :
      (c : Chain) (cfg : RelayConfig) (auth : Auth) (id : String) (v : Value) (reject : Bool)
      → Keeps P (approve c cfg auth id v reject)
  unfolding approve
  approve-Keeps c cfg auth id v reject =
      search (keeps_rules, outcomes-Keeps stable, or_new-Keeps stable, settle_request-Keeps) depth
        24

  pub ack-Keeps : (c : Chain) (auth : Auth) (id : String) (v : Value) → Keeps P (ack c auth id v)
  unfolding ack
  ack-Keeps c auth id v = search (keeps_rules, Keeps-modify, stable.activates) depth 16
