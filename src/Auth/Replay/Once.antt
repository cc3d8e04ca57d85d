-- ===== src/Auth/Replay/Once.antt =====
-- `authenticate` of src/api/auth.rs refuses a token that it has accepted before.
use palla_sync.Prelude.{
  ℕ, ◌+◌, false, Option, some, String, ◌≡◌, refl, subst, is_some, nat_eq, text_eq, pair_eq,
  find_row, add_row, arith, ap, beq_self,
}
use palla_sync.Json.{Value, s, n}
use palla_sync.Error.{ok}
use palla_sync.Crypto.Primitives.{External}
use palla_sync.Db.{World, Chain}
use palla_sync.Db.Inversion.{bind-ok}
use palla_sync.Db.Stays.{Stays}
use palla_sync.Config.{RelayConfig}
use palla_sync.Auth.{Auth, lift}
use palla_sync.Auth.Rate.{Floats, rate}
use palla_sync.Auth.Token.{AuthRequest, token_of, check_binding, check_times, nonce_key}
use palla_sync.Auth.Authenticate.{
  reserve_nonce, purge, check_token, admit, authenticate_at, authenticate, DeviceState,
}
use palla_sync.Auth.Replay.{check_token-Stays}

module _ ⦃x : External⦄ where
  check_token-still :
      (cfg : RelayConfig) (r : AuthRequest) (token : Value) (t : ℕ) (w : World)
      → (check_token cfg r token t w).1 ≡ w
  check_token-still cfg r token t w =
      let still : Stays (λ v. v ≡ w) (check_token cfg r token t) =
        check_token-Stays cfg r token t in
      still.after w refl

  check_token-times :
      (cfg : RelayConfig) (r : AuthRequest) (token : Value) (t : ℕ) (w : World) {a : _} {w' : World}
      → check_token cfg r token t w ≡ (ok a, w')
      → check_times token t ≡ ok tt
  unfolding check_token
  check_token-times cfg r token t w h =
      ap (λ p. p.0) (bind-ok (lift (check_times token t)) _ w h).first

module _ ⦃x : External⦄ ⦃f : Floats⦄ where
  -- What has happened when a request was accepted.
  pub record Accepted (cfg : RelayConfig) (r : AuthRequest) (w w' : World) : Type 0 where
    pub token : Value
    pub header : token_of r ≡ ok token
    pub same_chain : s token "chain_id" ≡ r.chain_id
    pub in_time : check_times token (w.time w.reads) ≡ ok tt
    pub fresh :
        is_some (find_row (nonce_key r.chain_id token) (purge (w.time w.reads) w.db).nonces) ≡ false
    pub spent :
        find_row (nonce_key r.chain_id token) w'.nonces ≡ some (n token "expires_at_ms" + 60000)
    pub time : w'.time ≡ w.time

  check_binding-chain :
      (cfg : RelayConfig) (r : AuthRequest) (token : Value)
      → check_binding cfg r token ≡ ok tt
      → s token "chain_id" ≡ r.chain_id
  unfolding check_binding
  check_binding-chain cfg r token h =
      ground (arith, h, text_eq.decides {x = s token "chain_id"} {y = r.chain_id})

  reserve_nonce-ok :
      (c : String) (token : Value) (t : ℕ) (w w' : World)
      → reserve_nonce c token t w ≡ (ok tt, w')
      → (is_some (find_row (nonce_key c token) (purge t w.db).nonces) ≡ false)
        × (w' ≡ record w {
          db = record w.db {
            nonces =
                add_row (nonce_key c token) (n token "expires_at_ms" + 60000) (purge t w.db).nonces;
          };
        })
  unfolding reserve_nonce
  reserve_nonce-ok c token t w w' h = ground (arith, h)

  -- What follows the nonce changes no nonce, and not the clock.
  admit-kept :
      (cfg : RelayConfig) (r : AuthRequest) (token : Value) (checked : Option Chain × DeviceState)
      (w : World)
      → ((admit cfg r token checked w).1.nonces ≡ w.nonces)
        × ((admit cfg r token checked w).1.time ≡ w.time)
  unfolding admit rate
  admit-kept cfg r token checked w = ground arith

  authenticate_at-ok :
      (cfg : RelayConfig) (r : AuthRequest) (token : Value) (t : ℕ) (w : World) (auth : Auth)
      (w' : World)
      → authenticate_at cfg r token t w ≡ (ok auth, w')
      → (check_times token t ≡ ok tt)
        × ((is_some (find_row (nonce_key r.chain_id token) (purge t w.db).nonces) ≡ false)
            × ((find_row (nonce_key r.chain_id token) w'.nonces
                  ≡ some (n token "expires_at_ms" + 60000))
                × (w'.time ≡ w.time)))
  unfolding authenticate_at find_row
  authenticate_at-ok cfg r token t w auth w' h =
      let key = nonce_key r.chain_id token in
      let b = bind-ok (check_token cfg r token t) _ w h in
      let still : b.world ≡ w = ground (arith, b.first, check_token-still cfg r token t w) in
      let b' = bind-ok (reserve_nonce r.chain_id token t) _ b.world b.rest in
      let (fresh, world) = reserve_nonce-ok r.chain_id token t b.world b'.world b'.first in
      let (nonces, time) = admit-kept cfg r token b.value b'.world in
      (
        check_token-times cfg r token t w b.first,
        (
          ground (arith, fresh, still),
          (
            ground (arith, nonces, world, b'.rest, beq_self key),
            ground (arith, time, world, still, b'.rest),
          ),
        ),
      )

  pub authenticate-ok :
      (cfg : RelayConfig) (r : AuthRequest) (w : World) (auth : Auth) (w' : World)
      → authenticate cfg r w ≡ (ok auth, w')
      → Accepted cfg r w w'
  unfolding authenticate
  authenticate-ok cfg r w auth w' h =
      let b = bind-ok (lift (token_of r)) _ w h in
      let b' = bind-ok (lift (check_binding cfg r b.value)) _ b.world b.rest in
      let same : b'.world ≡ w = ground (arith, b.first, b'.first) in
      let (in_time, (fresh, (spent, time))) =
        authenticate_at-ok cfg r b.value (w.time w.reads) (record w { reads = w.reads + 1 }) auth w'
          (subst
            (λ (v : World).
              authenticate_at cfg r b.value (v.time v.reads) (record v { reads = v.reads + 1 })
              ≡ (ok auth, w'))
            same b'.rest) in
      record {
        token = b.value;
        header = ap (λ p. p.0) b.first;
        same_chain = check_binding-chain cfg r b.value (ap (λ p. p.0) b'.first);
        in_time = in_time;
        fresh = fresh;
        spent = spent;
        time = time;
      }
