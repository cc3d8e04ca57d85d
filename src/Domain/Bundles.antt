-- ===== src/Domain/Bundles.antt =====
-- `bundle` of src/api/domain.rs: a new epoch with the envelopes for its members.
use palla_sync.Prelude.{
  pair_eq, ◌+◌, Bool, true, false, not, ◌&&◌, ◌||◌, none, some, List, [], ◌∷◌, ◌++◌, map, String,
  ◌==◌, ◌/=◌, ltb, text_ltb, nat_eq, text_eq, length, is_empty, any, select, contains, Table,
  select_rows, if◌then◌else◌,
}
use palla_sync.Json.{Value, as_str, s, n, a}
use palla_sync.Error.{
  epoch_chain_invalid, rotation_not_allowed, member_set_mismatch, device_id_conflict, invalid_field,
  recovery_envelope_required,
}
use palla_sync.Crypto.Primitives.{External}
use palla_sync.Crypto.{object_hash}
use palla_sync.Db.{Chain, Status, revoked, RegistryRow, Db}
use palla_sync.Db.Action.{Action, ◌>>=◌, ◌>>◌, pure, fail, lift, gets, fail_if}
use palla_sync.Wire.Signed.{verify}
use palla_sync.Wire.Validate.{ObjectKind, validate}
use palla_sync.Store.Hashes.{generation, epoch_hash}
use palla_sync.Auth.{signing_key}
use palla_sync.Domain.{bound, signing_context, allows}
use palla_sync.Domain.Envelopes.{check_envelope}

-- `sort` of texts
unfoldable pub insert_text : String → List String → List String
insert_text t [] = t ∷ []
insert_text t (u ∷ us) =
    let rest = insert_text t us in if text_ltb u t then u ∷ rest else t ∷ u ∷ us

unfoldable pub sort_texts : List String → List String
unfolding insert_text
sort_texts [] = []
sort_texts (t ∷ ts) = insert_text t (sort_texts ts)

abbrev texts_beq : List String → List String → Bool
texts_beq [] [] = true
texts_beq [] (u ∷ us) = false
texts_beq (t ∷ ts) [] = false
texts_beq (t ∷ ts) (u ∷ us) = t == u && texts_beq ts us

-- `as_str().unwrap()` of validated identifiers
abbrev id_of : Value → String
id_of v = elim (as_str v) [ none ↦ "" | some t ↦ t ]

abbrev pub ids_of : Value → String → List String
ids_of v key = map id_of (a v key)

abbrev is_live : Status → Bool
is_live revoked = false
is_live _ = true

abbrev row_ids : Table (String × String) RegistryRow → List String
row_ids [] = []
row_ids ((k, r) ∷ rows) = k.1 ∷ row_ids rows

-- The reasons of an epoch.
abbrev is_reason : Value → List String → Bool
is_reason epoch reasons = contains reasons (s epoch "reason")

abbrev lists_all : List String → List String → Bool
lists_all ids known = not (any (λ id. not (contains known id)) ids)

module _ ⦃x : External⦄ where
  -- The devices that the epoch follows on, in order: those of the chain's generation that are not
  -- revoked; at a reseed those of every generation, at genesis none.
  unfoldable pub existing_members : Chain → Bool → Bool → Db → List String
  existing_members c genesis reseed db =
      if genesis
      then []
      else sort_texts (
          row_ids (
            select_rows
              (λ k r.
                (k.0 == c.chain_id)
                && is_live r.status
                && (reseed || (r.generation == generation c)))
              db.registry))

  -- Where the epoch stands in the chain.
  unfoldable pub check_succession : Chain → Value → Bool → Bool → Action (Unit {0})
  check_succession c epoch true reseed =
      fail_if
        (n epoch "epoch" /= 0
          || s epoch "reason" /= "genesis"
          || s epoch "signer_kind" /= "admin"
          || not (is_empty (a epoch "revoked_device_ids")))
        epoch_chain_invalid
  check_succession c epoch false reseed = do
    fail_if
        (n epoch "epoch" /= n c.epoch "epoch" + 1 || s epoch "previous_epoch_hash" /= epoch_hash c)
        epoch_chain_invalid
    fail_if (is_reason epoch ("genesis" ∷ "reseed" ∷ []) && not reseed) epoch_chain_invalid
    fail_if
        (not (is_empty (a epoch "revoked_device_ids"))
          && not (
              is_reason epoch ("device_revocation" ∷ "key_rotation" ∷ "emergency" ∷ "reseed" ∷ [])))
        epoch_chain_invalid

  -- Who may sign the epoch.
  unfoldable pub check_rotation : Chain → Value → Action (Unit {0})
  check_rotation c epoch = do
    fail_if
        (is_reason epoch ("genesis" ∷ "emergency" ∷ "reseed" ∷ [])
          && s epoch "signer_kind" /= "admin")
        rotation_not_allowed
    fail_if (s epoch "signer_kind" == "device" && not (allows c "allow_device_rotation"))
        rotation_not_allowed

  -- The staged devices join the members, unless one of them is there.
  unfoldable pub join_staged : List String → List Value → Action (List String)
  join_staged members [] = pure members
  join_staged members (d ∷ ds) =
      let rest = join_staged (members ++ s d "device_id" ∷ []) ds in
      if contains members (s d "device_id") then fail device_id_conflict else rest

  -- The members that the epoch must have: those before it without the revoked, and the staged.
  unfoldable pub check_members : Chain → Value → List Value → Bool → Bool → Action (List String)
  check_members c epoch staged genesis reseed = do
    existing ← gets (existing_members c genesis reseed)
    let revoked_ids = ids_of epoch "revoked_device_ids"
    fail_if
        (not (lists_all revoked_ids existing) || (reseed && not (texts_beq revoked_ids existing)))
        member_set_mismatch
    let kept = if reseed then [] else select (λ id. not (contains revoked_ids id)) existing
    joined ← join_staged kept staged
    let members = sort_texts joined
    fail_if (not (texts_beq members (ids_of epoch "members")) || ltb 128 (length members))
        member_set_mismatch
    pure members

  -- The loop over the envelopes: the identifiers and the recipients so far, and whether the recovery
  -- envelope was there.
  unfoldable pub check_envelopes :
      Chain
      → Value
      → List Value
      → List String
      → List String
      → List String
      → Bool
      → List Value
      → Action Bool
  check_envelopes c epoch staged members ids recipients recovery [] = pure recovery
  check_envelopes c epoch staged members ids recipients recovery (e ∷ es) =
      let id = s e "envelope_id" in
      let to = s e "recipient_device_id" in
      let recovered = check_envelopes c epoch staged members (id ∷ ids) recipients true es in
      let delivered =
        check_envelopes c epoch staged members (id ∷ ids) (to ∷ recipients) recovery es in
      check_envelope c e epoch staged
      >> (fail_if (contains ids id) invalid_field
          >> (if s e "recipient_kind" == "recovery"
              then (fail_if (recovery || object_hash e /= s epoch "recovery_envelope_hash")
                    recovery_envelope_required
                  >> recovered)
              else (fail_if (not (contains members to) || contains recipients to)
                    member_set_mismatch
                  >> delivered)))

  unfoldable pub bundle : Chain → Value → List Value → List Value → Bool → Bool → Action (Unit {0})
  unfolding check_rotation
  bundle c epoch envelopes staged genesis reseed = do
    lift (validate epoch ObjectKind.epoch)
    lift (bound epoch c)
    check_succession c epoch genesis reseed
    check_rotation c epoch
    key ← signing_key c epoch
    lift (verify epoch key (signing_context "PALLASYNC-EPOCH-v3"))
    members ← check_members c epoch staged genesis reseed
    fail_if (length envelopes /= length members + 1) member_set_mismatch
    recovery ← check_envelopes c epoch staged members [] [] false envelopes
    fail_if (not recovery) recovery_envelope_required
