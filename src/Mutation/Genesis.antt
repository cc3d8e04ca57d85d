-- ===== src/Mutation/Genesis.antt =====
-- `genesis` of src/api/mutation.rs.
use palla_sync.Prelude.{true, false, none, [], ◌∷◌, String, ◌/=◌, nat_eq, text_eq, is_some}
use palla_sync.Json.{Value, str, ◌!◌, array, set_member, s, n, a}
use palla_sync.Error.{
  chain_exists, generation_mismatch, epoch_stale, enrollment_certificate_invalid, internal_error,
}
use palla_sync.Crypto.Primitives.{External}
use palla_sync.Db.{Chain, Kind}
use palla_sync.Db.Action.{Action, ◌>>=◌, ◌>>◌, pure, lift, fail_if, require}
use palla_sync.Config.{RelayConfig}
use palla_sync.Wire.Types.{Schema, fields, object, array as array_type}
use palla_sync.Wire.Signed.{verify}
use palla_sync.Wire.Validate.{ObjectKind, validate}
use palla_sync.Store.Hashes.{new_chain, result}
use palla_sync.Store.Objects.{load}
use palla_sync.Store.Outcomes.{outcomes, outcome}
use palla_sync.Store.Append.{append}
use palla_sync.Store.Quota.{publish_notice, save}
use palla_sync.Domain.{signing_context}
use palla_sync.Domain.Devices.{check_device}
use palla_sync.Domain.Bundles.{bundle}
use palla_sync.Domain.Commit.{commit_epoch}
use palla_sync.Mutation.{Reply, reply, or_new}

abbrev genesis_fields : Schema
genesis_fields =
    ("parameters", object)
    ∷ ("device_record", object)
    ∷ ("epoch", object)
    ∷ ("envelopes", array_type)
    ∷ []

module _ ⦃x : External⦄ where
  -- The chain of an earlier genesis; `unwrap` of a chain that is not there panics.
  abbrev pub genesis_again : String → Value → Action Reply
  genesis_again id response = do
    found ← load id
    c ← require found internal_error
    pure (reply 200 response c)

  -- The checks of a new chain.
  unfoldable pub check_genesis : Chain → Value → Action (Unit {0})
  check_genesis c v = do
    check_device c (v ! "device_record") none true
    fail_if (s (v ! "device_record" ! "enrollment") "signer_kind" /= "admin")
        enrollment_certificate_invalid
    bundle c (v ! "epoch") (a v "envelopes") (v ! "device_record" ∷ []) true false

  -- The chain's first entries, its response, and its state.
  unfoldable pub store_genesis : Chain → RelayConfig → Value → Action Reply
  store_genesis c cfg v = do
    let id = s (v ! "parameters") "chain_id"
    e ← append c cfg Kind.parameters (v ! "parameters")
    m ← commit_epoch e.chain cfg (record {
      epoch = v ! "epoch";
      envelopes = a v "envelopes";
      staged = v ! "device_record" ∷ [];
      admin = none;
      genesis = true;
    })
    let response =
        set_member (set_member (result m.chain) "device_status" (str "active")) "upload_receipts"
          (array (e.receipt ∷ m.receipts))
    c' ← publish_notice m.chain cfg
    outcome id "genesis" id v response
    save c' cfg
    pure (reply 201 response c')

  unfoldable pub new_genesis : RelayConfig → Value → Action Reply
  unfolding check_genesis store_genesis
  new_genesis cfg v = do
    let p = v ! "parameters"
    found ← load (s p "chain_id")
    fail_if (is_some found) chain_exists
    fail_if (n p "generation" /= 0) generation_mismatch
    fail_if (n (v ! "device_record") "meta_epoch" /= 0) epoch_stale
    c ← new_chain p (v ! "epoch") cfg none
    check_genesis c v
    store_genesis c cfg v

  unfoldable pub genesis : RelayConfig → Value → Action Reply
  unfolding new_genesis
  genesis cfg v = do
    lift (fields v genesis_fields [])
    let p = v ! "parameters"
    lift (validate p ObjectKind.parameters)
    lift (verify p (s p "admin_public_key") (signing_context "PALLASYNC-CHAIN-PARAMS-v3"))
    let id = s p "chain_id"
    known ← outcomes id "genesis" id v
    or_new known (genesis_again id) (new_genesis cfg v)
