-- ===== src/Invariant/Enrolling.antt =====
-- `genesis` and `enroll` of src/api/mutation.rs keep an invariant that each write keeps.
use palla_sync.Prelude.{
  ◌/=◌, contains, ◌||◌, ◌==◌, Bool, Option, none, some, List, [], ◌∷◌, String, pair_eq, nat_eq,
  text_eq,
}
use palla_sync.Json.{Value, s, n}
use palla_sync.Crypto.Primitives.{External}
use palla_sync.Db.{Chain, Kind, Db}
use palla_sync.Db.Action.{Action}
use palla_sync.Db.Keeps.{
  Keeps, Keeps-bind, Keeps-fail_if, Keeps-gets, Keeps-modify, keeps_rules, Keeps-require,
}
use palla_sync.Config.{RelayConfig}
use palla_sync.Auth.{Auth}
use palla_sync.Mutation.{Reply, or_new}
use palla_sync.Invariant.{IsStable}
use palla_sync.Mutation.Genesis.{store_genesis, genesis, check_genesis, new_genesis}
use palla_sync.Store.Hashes.{new_chain}
use palla_sync.Domain.Commit.{append_devices, commit_epoch, append_all, EpochCommit, enrolled_as}
use palla_sync.Mutation.Enroll.{
  enroll, check_deliveries, check_authority, check_enrollment, store_enrollment, lost_history,
}
use palla_sync.Store.Objects.{load, object_digest}
use palla_sync.Invariant.Appending.{append-Keeps, publish_notice-Keeps, save-Keeps, outcomes-Keeps}
use palla_sync.Invariant.Checks.{
  check_device-Keeps, bundle-Keeps, admin_operation-Keeps, check_envelope-Keeps, object-Keeps,
}
use palla_sync.Error.{envelope_access_denied, epoch_stale, history_key_expired}
use palla_sync.Decimal.{to_string}

module _ ⦃x : External⦄ {P : Db → Type 0} (stable : IsStable P) where
  append_devices-Keeps :
      (c : Chain) (cfg : RelayConfig) (genesis : Bool) (ds : List Value)
      → Keeps P (append_devices c cfg genesis ds)
  unfolding append_devices
  append_devices-Keeps c cfg genesis [] = search keeps_rules
  append_devices-Keeps c cfg genesis (d ∷ ds) =
      Keeps-bind _ _ (append-Keeps stable c cfg Kind.device d) λ e.
        Keeps-bind _ _ (stable.registers e.chain d (n e.entry "relay_seq") (enrolled_as genesis))
          λ _. Keeps-bind _ _ (append_devices-Keeps e.chain cfg genesis ds) λ r. search keeps_rules

  append_all-Keeps :
      (c : Chain) (cfg : RelayConfig) (kind : Kind) (vs : List Value)
      → Keeps P (append_all c cfg kind vs)
  unfolding append_all
  append_all-Keeps c cfg kind [] = search keeps_rules
  append_all-Keeps c cfg kind (v ∷ vs) =
      Keeps-bind _ _ (append-Keeps stable c cfg kind v)
        λ e. Keeps-bind _ _ (append_all-Keeps e.chain cfg kind vs) λ r. search keeps_rules

  pub commit_epoch-Keeps :
      (c : Chain) (cfg : RelayConfig) (m : EpochCommit) → Keeps P (commit_epoch c cfg m)
  unfolding commit_epoch
  commit_epoch-Keeps c cfg m =
      search
        (
          keeps_rules,
          append_devices-Keeps,
          append_all-Keeps,
          append-Keeps stable,
          Keeps-modify,
          stable.revokes,
        )
        depth 16

  store_genesis-Keeps :
      (c : Chain) (cfg : RelayConfig) (v : Value) → Keeps P (store_genesis c cfg v)
  unfolding store_genesis
  store_genesis-Keeps c cfg v =
      search
        (
          keeps_rules,
          append-Keeps stable,
          commit_epoch-Keeps,
          publish_notice-Keeps stable,
          stable.inserts_outcome,
          save-Keeps stable,
        )
        depth 16

  new_chain-Keeps :
      (parameters epoch : Value) (cfg : RelayConfig) (given : Option String)
      → Keeps P (new_chain parameters epoch cfg given)
  unfolding new_chain
  new_chain-Keeps parameters epoch cfg none = search keeps_rules
  new_chain-Keeps parameters epoch cfg (some id) = search keeps_rules

  check_genesis-Keeps : (c : Chain) (v : Value) → Keeps P (check_genesis c v)
  unfolding check_genesis
  check_genesis-Keeps c v = search (keeps_rules, check_device-Keeps, bundle-Keeps)

  new_genesis-Keeps : (cfg : RelayConfig) (v : Value) → Keeps P (new_genesis cfg v)
  unfolding new_genesis load
  new_genesis-Keeps cfg v =
      search (keeps_rules, new_chain-Keeps, check_genesis-Keeps, store_genesis-Keeps) depth 16

  pub or_new-Keeps :
      (known : Option Value) (again : Value → Action Reply) (new : Action Reply)
      → ((v : Value) → Keeps P (again v))
      → Keeps P new
      → Keeps P (or_new known again new)
  unfolding or_new
  or_new-Keeps none again new ka kn = kn
  or_new-Keeps (some v) again new ka kn = ka v

  pub genesis-Keeps : (cfg : RelayConfig) (v : Value) → Keeps P (genesis cfg v)
  unfolding genesis load
  genesis-Keeps cfg v =
      search (keeps_rules, outcomes-Keeps stable, or_new-Keeps, new_genesis-Keeps) depth 16

  check_deliveries-Keeps :
      (c : Chain) (d : Value) (ids : List String) (current : Bool) (es : List Value)
      → Keeps P (check_deliveries c d ids current es)
  unfolding check_deliveries
  check_deliveries-Keeps c d ids current [] = search keeps_rules
  check_deliveries-Keeps c d ids current (e ∷ es) =
      let rest =
        check_deliveries-Keeps c d (s e "envelope_id" ∷ ids)
          (current || (n e "epoch" == n c.epoch "epoch")) es in
      let misdirected =
        s e "recipient_kind" /= "device"
        || s e "recipient_device_id" /= s d "device_id"
        || contains ids (s e "envelope_id") in
      Keeps-bind _ _ (Keeps-fail_if misdirected envelope_access_denied) λ _.
        Keeps-bind _ _ (object-Keeps c.chain_id Kind.epoch (to_string (n e "epoch"))) λ found.
          Keeps-bind _ _ (Keeps-require found epoch_stale) λ epoch.
            Keeps-bind _ _ (check_envelope-Keeps c e epoch (d ∷ [])) λ _.
              Keeps-bind _ _ (Keeps-gets (lost_history c e))
                λ lost. Keeps-bind _ _ (Keeps-fail_if lost history_key_expired) λ _. rest

  check_authority-Keeps : (c : Chain) (auth : Auth) (v : Value) → Keeps P (check_authority c auth v)
  unfolding check_authority
  check_authority-Keeps c auth v = search (keeps_rules, admin_operation-Keeps)

  check_enrollment-Keeps :
      (c : Chain) (cfg : RelayConfig) (auth : Auth) (v : Value) (request : Option Value)
      → Keeps P (check_enrollment c cfg auth v request)
  unfolding check_enrollment object_digest
  check_enrollment-Keeps c cfg auth v request =
      search (keeps_rules, check_device-Keeps, check_authority-Keeps, check_deliveries-Keeps) depth
        24

  store_enrollment-Keeps :
      (c : Chain) (cfg : RelayConfig) (auth : Auth) (v : Value)
      → Keeps P (store_enrollment c cfg auth v)
  unfolding store_enrollment
  store_enrollment-Keeps c cfg auth v =
      search
        (
          keeps_rules,
          append-Keeps stable,
          stable.registers,
          append_all-Keeps,
          stable.inserts_outcome,
        )
        depth 16

  pub enroll-Keeps :
      (c : Chain) (cfg : RelayConfig) (auth : Auth) (v : Value) (request : Option Value)
      → Keeps P (enroll c cfg auth v request)
  unfolding enroll
  enroll-Keeps c cfg auth v request =
      search
        (
          keeps_rules,
          outcomes-Keeps stable,
          or_new-Keeps,
          check_enrollment-Keeps,
          store_enrollment-Keeps,
        )
        depth 24
