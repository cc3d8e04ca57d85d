-- ===== src/Auth/Replay/Later.antt =====
-- No token is accepted twice by `authenticate` of src/api/auth.rs, whatever comes in between.
use palla_sync.Prelude.{
  ℕ, ◌+◌, ◌≤◌, true, false, some, ◌≡◌, refl, sym, subst, inl, inr, ltb, is_some, nat_eq, text_eq,
  pair_eq, find_row, arith, ◌∙◌, ◌⊎◌, find_row-delete_rows,
}
use palla_sync.Json.{Value, n}
use palla_sync.Error.{Result, ok, err}
use palla_sync.Crypto.Primitives.{External}
use palla_sync.Db.{World, Db}
use palla_sync.Db.Action.{continue, ◌>>=◌, ◌>>◌, lift, now}
use palla_sync.Config.{RelayConfig}
use palla_sync.Auth.{Auth}
use palla_sync.Auth.Rate.{Floats}
use palla_sync.Auth.Token.{AuthRequest, NonceKey, token_of, check_binding, check_times, nonce_key}
use palla_sync.Auth.Authenticate.{authenticate_at, authenticate, purge}
use palla_sync.Auth.Replay.{SpentSince, IsSpent, authenticate_at-spent}
use palla_sync.Auth.Replay.Once.{authenticate-ok}

-- The worlds after `w`: requests are authenticated, with any result, and other code runs that leaves
-- the nonces as they are, a rollback included.
pub data IsLater ⦃x : External⦄ ⦃f : Floats⦄ (cfg : RelayConfig) (w : World) : World → Type 0 where
  same : IsLater cfg w w
  request :
      {v : World} → IsLater cfg w v → (r : AuthRequest) → IsLater cfg w (authenticate cfg r v).1
  other :
      {v v' : World}
      → IsLater cfg w v
      → v'.nonces ≡ v.nonces
      → v'.time ≡ v.time
      → v.reads ≤ v'.reads
      → IsLater cfg w v'

-- The clock does not go back.
abbrev pub IsMonotone : (ℕ → ℕ) → Type 0
IsMonotone time = (i j : ℕ) → i ≤ j → time i ≤ time j

IsSpent-later :
    (k : NonceKey) (e t t' : ℕ) (db : Db) → t ≤ t' → IsSpent k e t db → IsSpent k e t' db
IsSpent-later k e t t' db h (inl there) = inl there
IsSpent-later k e t t' db h (inr over) = inr (ground (arith, h, over))

-- The clock of a later world.
later_clock :
    (v v' : World)
    → IsMonotone v.time
    → v'.time ≡ v.time
    → v.reads ≤ v'.reads
    → v.time v.reads ≤ v'.time v'.reads
later_clock v v' mono time reads =
    subst (λ (g : ℕ → ℕ). v.time v.reads ≤ g v'.reads) (sym time) (mono v.reads v'.reads reads)

module _ ⦃x : External⦄ ⦃f : Floats⦄ (cfg : RelayConfig) (k : NonceKey) (e : ℕ) where
  at_clock-spent :
      (r : AuthRequest) (token : Value) (w : World)
      → IsSpent k e (w.time w.reads) w.db
      → (b : Result (Unit {0}))
      → SpentSince k e
          (w.time w.reads)
          w
          (continue b (λ _. now >>= λ t. authenticate_at cfg r token t) w).1
  at_clock-spent r token w h (err c) = record { time = refl; reads = omega arith; spent = h }
  at_clock-spent r token w h (ok u) =
      (authenticate_at-spent k e (w.time w.reads) w cfg r token).after
        (record w { reads = w.reads + 1 }) (record { time = refl; reads = omega arith; spent = h })

  bound-spent :
      (r : AuthRequest) (w : World)
      → IsSpent k e (w.time w.reads) w.db
      → (t : Result Value)
      → SpentSince k e
          (w.time w.reads)
          w
          (continue t
            (λ token.
              lift (check_binding cfg r token) >> (now >>= λ t. authenticate_at cfg r token t))
            w).1
  bound-spent r w h (err c) = record { time = refl; reads = omega arith; spent = h }
  bound-spent r w h (ok token) = at_clock-spent r token w h (check_binding cfg r token)

  authenticate-spent :
      (r : AuthRequest) (w : World)
      → IsSpent k e (w.time w.reads) w.db
      → SpentSince k e (w.time w.reads) w (authenticate cfg r w).1
  unfolding authenticate
  authenticate-spent r w h = bound-spent r w h (token_of r)

  IsLater-spent :
      {w v : World}
      → IsMonotone w.time
      → IsSpent k e (w.time w.reads) w.db
      → IsLater cfg w v
      → SpentSince k e (v.time v.reads) w v
  IsLater-spent {w} mono h same = record { time = refl; reads = omega arith; spent = h }
  IsLater-spent {w} mono h (request {v} later r) =
      let before = IsLater-spent mono h later in
      let v' = (authenticate cfg r v).1 in
      let after = authenticate-spent r v before.spent in
      let mono_v = subst IsMonotone (sym before.time) mono in
      record {
        time = after.time ∙ before.time;
        reads = omega (arith, after.reads, before.reads);
        spent =
            IsSpent-later k e (v.time v.reads) (v'.time v'.reads) v'.db
              (later_clock v v' mono_v after.time after.reads) after.spent;
      }
  IsLater-spent {w} mono h (other {v} {v'} later nonces time reads) =
      let before = IsLater-spent mono h later in
      let mono_v = subst IsMonotone (sym before.time) mono in
      let spent =
        IsSpent-later k e (v.time v.reads) (v'.time v'.reads) v.db
          (later_clock v v' mono_v time reads) before.spent in
      record {
        time = time ∙ before.time;
        reads = omega (arith, reads, before.reads);
        spent =
            subst (λ rows. (find_row k rows ≡ some e) ⊎ (ltb e (v'.time v'.reads) ≡ true))
              (sym nonces) spent;
      }

-- A token that passes its checks at `t` has not expired.
check_times-open :
    (token : Value) (t : ℕ)
    → check_times token t ≡ ok tt
    → ltb (n token "expires_at_ms" + 60000) t ≡ false
unfolding check_times
check_times-open token t h = ground arith

-- The purge leaves the nonce of a token that has not expired, so it is not fresh.
spent-stale :
    (k : NonceKey) (e t : ℕ) (db : Db)
    → IsSpent k e t db
    → ltb e t ≡ false
    → ¬ (is_some (find_row k (purge t db).nonces) ≡ false)
spent-stale k e t db (inl there) open_yet fresh =
    ground (arith, find_row-delete_rows k e (λ j i. ltb i t) db.nonces open_yet there, fresh)
spent-stale k e t db (inr over) open_yet fresh = ground (arith, over, open_yet)

token_of-header :
    ⦃x : External⦄ (r r' : AuthRequest)
    → r'.authorization ≡ r.authorization
    → token_of r' ≡ token_of r
unfolding token_of
token_of-header r r' h = cc

-- An accepted token is not accepted again in any later world, in a request with the same header,
-- if the clock does not go back.
pub authenticate-once :
    ⦃x : External⦄ ⦃f : Floats⦄ (cfg : RelayConfig) (r r' : AuthRequest) (w w' v v' : World)
    (auth auth' : Auth)
    → IsMonotone w.time
    → r'.authorization ≡ r.authorization
    → authenticate cfg r w ≡ (ok auth, w')
    → IsLater cfg w' v
    → ¬ (authenticate cfg r' v ≡ (ok auth', v'))
authenticate-once cfg r r' w w' v v' auth auth' mono header h later h' =
    let first = authenticate-ok cfg r w auth w' h in
    let second = authenticate-ok cfg r' v auth' v' h' in
    let k = nonce_key r.chain_id first.token in
    let e = n first.token "expires_at_ms" + 60000 in
    let still =
      IsLater-spent cfg k e (subst IsMonotone (sym first.time) mono) (inl first.spent) later in
    let same : second.token ≡ first.token =
      ground (arith, token_of-header r r' header, first.header, second.header) in
    let same_chain : r'.chain_id ≡ r.chain_id =
      ground (arith, same, first.same_chain, second.same_chain) in
    spent-stale k e (v.time v.reads) v.db still.spent
      (check_times-open first.token (v.time v.reads)
        (subst (λ u. check_times u (v.time v.reads) ≡ ok tt) same second.in_time))
      (subst
        (λ u.
          is_some (find_row (nonce_key u first.token) (purge (v.time v.reads) v.db).nonces) ≡ false)
        same_chain
        (subst
          (λ u.
            is_some (find_row (nonce_key r'.chain_id u) (purge (v.time v.reads) v.db).nonces)
            ≡ false)
          same second.fresh))
