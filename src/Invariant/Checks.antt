-- ===== src/Invariant/Checks.antt =====
-- The checks of src/api/auth.rs and src/api/domain.rs read only: they keep every invariant.
use palla_sync.Prelude.{
  ℕ, Bool, true, false, Option, List, [], ◌∷◌, String, ◌++◌, ◌==◌, text_eq, contains, ◌||◌, ◌/=◌,
  not,
}
use palla_sync.Json.{Value, s}
use palla_sync.Crypto.Primitives.{External}
use palla_sync.Db.{Kind, Chain, Db}
use palla_sync.Db.Keeps.{Keeps, keeps_rules, Keeps-elim, Keeps-if, Keeps-bind, Keeps-fail_if}
use palla_sync.Auth.{active_device, signing_key, registry_status}
use palla_sync.Domain.Envelopes.{
  check_envelope, envelope_key, check_recipient, recipient, known_recipient,
}
use palla_sync.Domain.Bundles.{
  check_succession, join_staged, check_members, bundle, check_rotation, check_envelopes,
}
use palla_sync.Domain.Compactions.{check_compaction, check_part, covered_hash, check_parts}
use palla_sync.Domain.{admin_operation, staged_or_active, find_staged}
use palla_sync.Domain.Devices.{check_device, check_certificate, check_meta_epoch}
use palla_sync.Store.Objects.{object_digest, object}
use palla_sync.Db.Action.{pure, fail}
use palla_sync.Error.{
  device_id_conflict, invalid_field, recovery_envelope_required, member_set_mismatch,
}
use palla_sync.Crypto.{object_hash}

module _ ⦃x : External⦄ {P : Db → Type 0} where
  pub object-Keeps : (c : String) (kind : Kind) (id : String) → Keeps P (object c kind id)
  unfolding object
  object-Keeps c kind id = search keeps_rules

  pub active_device-Keeps : (c : Chain) (id : String) → Keeps P (active_device c id)
  unfolding active_device object registry_status
  active_device-Keeps c id = search keeps_rules depth 16

  pub signing_key-Keeps : (c : Chain) (v : Value) → Keeps P (signing_key c v)
  unfolding signing_key
  signing_key-Keeps c v = search (keeps_rules, active_device-Keeps)

  pub staged_or_active-Keeps :
      (c : Chain) (staged : List Value) (id : String) → Keeps P (staged_or_active c staged id)
  unfolding staged_or_active
  staged_or_active-Keeps c staged id =
      Keeps-elim (find_staged staged id) (active_device c id) (λ d. pure (s d "device_public_key"))
        (active_device-Keeps c id) (λ d. search keeps_rules)

  pub admin_operation-Keeps :
      (c : Chain) (op : Value) (action : String) (target : Value)
      → Keeps P (admin_operation c op action target)
  unfolding admin_operation object_digest
  admin_operation-Keeps c op action target = search keeps_rules depth 16

  check_meta_epoch-Keeps :
      (c : Chain) (d : Value) (genesis : Bool) → Keeps P (check_meta_epoch c d genesis)
  unfolding check_meta_epoch object
  check_meta_epoch-Keeps c d true = search keeps_rules
  check_meta_epoch-Keeps c d false = search keeps_rules

  check_certificate-Keeps :
      (c : Chain) (d : Value) (request : Option Value) → Keeps P (check_certificate c d request)
  unfolding check_certificate
  check_certificate-Keeps c d request = search (keeps_rules, signing_key-Keeps)

  pub check_device-Keeps :
      (c : Chain) (d : Value) (request : Option Value) (genesis : Bool)
      → Keeps P (check_device c d request genesis)
  unfolding check_device object_digest
  check_device-Keeps c d request genesis =
      search (keeps_rules, check_meta_epoch-Keeps, check_certificate-Keeps) depth 24

  envelope_key-Keeps :
      (c : Chain) (e : Value) (staged : List Value) → Keeps P (envelope_key c e staged)
  unfolding envelope_key
  envelope_key-Keeps c e staged = Keeps-if (s e "signer_kind" == "admin") _ _ (search keeps_rules) (
      Keeps-elim (find_staged staged (s e "signer_device_id")) (signing_key c e)
        (λ d. pure (s d "device_public_key")) (signing_key-Keeps c e) (λ d. search keeps_rules))

  known_recipient-Keeps : (c : Chain) (id : String) → Keeps P (known_recipient c id)
  unfolding known_recipient object registry_status
  known_recipient-Keeps c id = search keeps_rules depth 16

  recipient-Keeps :
      (c : Chain) (id : String) (staged : List Value) → Keeps P (recipient c id staged)
  unfolding recipient
  recipient-Keeps c id staged =
      Keeps-elim (find_staged staged id) (known_recipient c id) (λ d. pure d)
        (known_recipient-Keeps c id) (λ d. search keeps_rules)

  check_recipient-Keeps :
      (c : Chain) (e : Value) (staged : List Value) → Keeps P (check_recipient c e staged)
  unfolding check_recipient
  check_recipient-Keeps c e staged = search (keeps_rules, recipient-Keeps)

  pub check_envelope-Keeps :
      (c : Chain) (e epoch : Value) (staged : List Value)
      → Keeps P (check_envelope c e epoch staged)
  unfolding check_envelope
  check_envelope-Keeps c e epoch staged =
      search (keeps_rules, envelope_key-Keeps, check_recipient-Keeps) depth 16

  check_succession-Keeps :
      (c : Chain) (epoch : Value) (genesis reseed : Bool)
      → Keeps P (check_succession c epoch genesis reseed)
  unfolding check_succession
  check_succession-Keeps c epoch true reseed = search keeps_rules
  check_succession-Keeps c epoch false reseed = search keeps_rules

  check_rotation-Keeps : (c : Chain) (epoch : Value) → Keeps P (check_rotation c epoch)
  unfolding check_rotation
  check_rotation-Keeps c epoch = search keeps_rules

  join_staged-Keeps :
      (members : List String) (staged : List Value) → Keeps P (join_staged members staged)
  unfolding join_staged
  join_staged-Keeps members [] = search keeps_rules
  join_staged-Keeps members (d ∷ ds) =
      let rest = join_staged-Keeps (members ++ s d "device_id" ∷ []) ds in
      Keeps-if (contains members (s d "device_id")) (fail device_id_conflict) _ (search keeps_rules)
        rest

  check_members-Keeps :
      (c : Chain) (epoch : Value) (staged : List Value) (genesis reseed : Bool)
      → Keeps P (check_members c epoch staged genesis reseed)
  unfolding check_members
  check_members-Keeps c epoch staged genesis reseed =
      search (keeps_rules, join_staged-Keeps) depth 16

  check_envelopes-Keeps :
      (c : Chain) (epoch : Value) (staged : List Value) (members ids recipients : List String)
      (recovery : Bool) (es : List Value)
      → Keeps P (check_envelopes c epoch staged members ids recipients recovery es)
  unfolding check_envelopes
  check_envelopes-Keeps c epoch staged members ids recipients recovery [] = search keeps_rules
  check_envelopes-Keeps c epoch staged members ids recipients recovery (e ∷ es) =
      let id = s e "envelope_id" in
      let to = s e "recipient_device_id" in
      let recovered = check_envelopes-Keeps c epoch staged members (id ∷ ids) recipients true es in
      let delivered =
        check_envelopes-Keeps c epoch staged members (id ∷ ids) (to ∷ recipients) recovery es in
      Keeps-bind _ _ (check_envelope-Keeps c e epoch staged) λ _.
        Keeps-bind _ _ (Keeps-fail_if (contains ids id) invalid_field) λ _.
          Keeps-if (s e "recipient_kind" == "recovery") _ _
            (Keeps-bind _ _
              (Keeps-fail_if (recovery || object_hash e /= s epoch "recovery_envelope_hash")
                recovery_envelope_required)
              λ _. recovered)
            (Keeps-bind _ _
              (Keeps-fail_if (not (contains members to) || contains recipients to)
                member_set_mismatch)
              λ _. delivered)

  pub bundle-Keeps :
      (c : Chain) (epoch : Value) (envelopes staged : List Value) (genesis reseed : Bool)
      → Keeps P (bundle c epoch envelopes staged genesis reseed)
  unfolding bundle
  bundle-Keeps c epoch envelopes staged genesis reseed =
      search
        (
          keeps_rules, check_succession-Keeps, check_rotation-Keeps, signing_key-Keeps,
          check_members-Keeps, check_envelopes-Keeps,
        )
        depth 24

  covered_hash-Keeps : (c : Chain) (seq : ℕ) → Keeps P (covered_hash c seq)
  unfolding covered_hash
  covered_hash-Keeps c seq = search keeps_rules

  check_part-Keeps : (c : Chain) (staged : List Value) (p : Value) → Keeps P (check_part c staged p)
  unfolding check_part object
  check_part-Keeps c staged p = search (keeps_rules, staged_or_active-Keeps) depth 16

  check_parts-Keeps : (c : Chain) (staged ps : List Value) → Keeps P (check_parts c staged ps)
  unfolding check_parts
  check_parts-Keeps c staged [] = search keeps_rules
  check_parts-Keeps c staged (p ∷ ps) =
      let rest = check_parts-Keeps c staged ps in
      Keeps-bind _ _ (check_part-Keeps c staged p) (λ _. rest)

  pub check_compaction-Keeps :
      (c : Chain) (v : Value) (staged : List Value) → Keeps P (check_compaction c v staged)
  unfolding check_compaction
  check_compaction-Keeps c v staged =
      search (keeps_rules, staged_or_active-Keeps, covered_hash-Keeps, check_parts-Keeps) depth 24
