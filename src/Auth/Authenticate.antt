-- ===== src/Auth/Authenticate.antt =====
-- `authenticate` of src/api/auth.rs: whose key the token must be signed with, and its nonce, which is
-- spent once.
use palla_sync.Prelude.{
  ℕ, ◌+◌, ◌-◌, not, ◌&&◌, Option, none, some, List, [], ◌∷◌, ◌++◌, String, ◌==◌, ◌/=◌, ltb, nat_eq,
  text_eq, bool_eq, pair_eq, option_eq, is_some, find_row, add_row, delete_rows, if◌then◌else◌,
}
use palla_sync.Json.{Value, num, object, ◌!◌, s, n}
use palla_sync.Error.{
  Result, ok, err, throw, with_context, failed, ok_or, token_signature_invalid, token_not_yet_valid,
  token_replayed, admin_required, device_unknown, generation_mismatch,
}
use palla_sync.Crypto.Primitives.{External}
use palla_sync.Crypto.{codes, verify_signed_json}
use palla_sync.Db.{Status, device, Chain, DeletionRow, Db}
use palla_sync.Db.Action.{Action, ◌>>=◌, ◌>>◌, pure, lift, gets, require, fail_if, now}
use palla_sync.Config.{RelayConfig}
use palla_sync.Store.Objects.{object as find_body}
use palla_sync.Store.Hashes.{generation}
use palla_sync.Auth.{Auth, registry_status, allowed_by_status}
use palla_sync.Auth.Rate.{Floats, rate}
use palla_sync.Auth.Token.{
  AuthRequest, token_of, check_binding, check_times, device_of, or_empty, nonce_key,
}
use palla_sync.Wire.Signed.{holds}

-- The nonces that have expired at time `t` go, and the token's is inserted unless it is there.
abbrev pub purge : ℕ → Db → Db
purge t db = record db { nonces = delete_rows (λ k e. ltb e t) db.nonces }

unfoldable pub reserve_nonce : String → Value → ℕ → Action (Unit {0})
reserve_nonce c token t w =
    let db = purge t w.db in
    let key = nonce_key c token in
    if is_some (find_row key db.nonces)
    then (err (failed token_replayed), record w { db = db })
    else (
      ok tt,
      record w {
        db = record db { nonces = add_row key (n token "expires_at_ms" + 60000) db.nonces };
      },
    )

-- The device record that signs and its status, beside the key.
abbrev pub DeviceState : Type 0
DeviceState = Option (Value × Option Status)

abbrev deletion_key : DeletionRow → Option String → Result String
deletion_key d none = ok d.admin_public_key
deletion_key d (some id) =
    if d.deleting_device_id /= some id
    then throw token_signature_invalid
    else ok_or d.device_public_key device_unknown

abbrev proposed : Option String → Result String
proposed key = ok_or key token_signature_invalid

abbrev pub join : String → String → String
join String.[] u = u
join (String.◌∷◌ c t) u = String.◌∷◌ c (join t u)

abbrev scope_identity : String → Value → String
scope_identity c token =
    join c (join ":" (join (s token "signer_kind") (join ":" (or_empty (device_of token)))))

abbrev pub capability_signing : List ℕ
capability_signing = codes "PALLASYNC-CAPABILITY-v3" ++ 0 ∷ []

module _ ⦃x : External⦄ where
  -- The key of a chain's signer: the admin's, or that of a device.
  unfoldable pub chain_key : Chain → String → Option String → Action (String × DeviceState)
  chain_key c chain none = pure (s c.parameters "admin_public_key", none)
  chain_key c chain (some id) = do
    found ← find_body chain device id
    d ← require found token_signature_invalid
    state ← registry_status chain id
    pure (s d "device_public_key", some (d, state))

  abbrev without_state : Result String → Action (String × DeviceState)
  without_state r = lift r >>= λ key. pure (key, none)

  -- A deleted chain keeps the keys of its deletion; a chain that is not there yet has the key that
  -- the request proposes.
  unfoldable pub authority :
      Option DeletionRow
      → Option Chain
      → AuthRequest
      → Option String
      → Action (String × DeviceState)
  unfolding chain_key
  authority (some d) c r id = without_state (deletion_key d id)
  authority none (some c) r id = chain_key c r.chain_id id
  authority none none r id = without_state (proposed r.proposed_key)

  abbrev before_barrier : ℕ → ℕ → Result (Unit {0})
  before_barrier barrier issued =
      if ltb issued barrier
      then err (
          with_context (failed token_not_yet_valid)
            (object (("retry_after_ms", num (barrier - issued)) ∷ [])))
      else ok tt

  unfoldable pub check_barrier : RelayConfig → ℕ → Action (Unit {0})
  check_barrier cfg issued =
      if s (cfg.privacy ! "replay_protection") "mode" == "restart_barrier"
      then (gets (λ db. db.restart_barrier) >>= λ barrier. lift (before_barrier barrier issued))
      else pure tt

  -- The source reads the chain here; a device's state comes only with one.
  unfoldable pub check_signer : Option Chain → DeviceState → String → Result (Unit {0})
  check_signer c none route = ok tt
  check_signer none (some (d, state)) route = ok tt
  check_signer (some c) (some (d, state)) route =
      if n d "generation" /= generation c
      then throw generation_mismatch
      else allowed_by_status state route

  -- The checks before the nonce: they return the chain, if there is one, and the device's state.
  unfoldable pub check_token :
      RelayConfig → AuthRequest → Value → ℕ → Action (Option Chain × DeviceState)
  check_token cfg r token t = do
    lift (check_times token t)
    fail_if (is_some r.proposed_key && is_some (device_of token)) admin_required
    c ← gets (λ db. find_row r.chain_id db.chains)
    deletion ← gets (λ db. find_row r.chain_id db.deletions)
    (key, state) ← authority deletion c r (device_of token)
    fail_if (not (holds (verify_signed_json key (s token "signature") token capability_signing)))
        token_signature_invalid
    check_barrier cfg (n token "issued_at_ms")
    pure (c, state)

  module _ ⦃f : Floats⦄ where
    -- What follows the reservation of the nonce.
    unfoldable pub admit :
        RelayConfig → AuthRequest → Value → Option Chain × DeviceState → Action Auth
    admit cfg r token (c, state) = do
      lift (check_signer c state r.route)
      rate cfg "authorized_signer" (scope_identity r.chain_id token)
      pure (record { token = token; device_id = device_of token })

    -- What follows the reading of the clock at time `t`.
    unfoldable pub authenticate_at : RelayConfig → AuthRequest → Value → ℕ → Action Auth
    authenticate_at cfg r token t = do
      checked ← check_token cfg r token t
      reserve_nonce r.chain_id token t
      admit cfg r token checked

    unfoldable pub authenticate : RelayConfig → AuthRequest → Action Auth
    authenticate cfg r = do
      token ← lift (token_of r)
      lift (check_binding cfg r token)
      t ← now
      authenticate_at cfg r token t
