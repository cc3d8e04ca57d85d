-- ===== src/Auth/Replay.antt =====
-- A capability token is spent once (`authenticate` of src/api/auth.rs).
pub mod Once
pub mod Later
use palla_sync.Prelude.{
  if◌then◌else◌, [], ◌∷◌, inl, inr, Bool-cases, ==_iff, ℕ, ◌+◌, ◌≤◌, ◌<◌, Bool, true, false, Option,
  none, some, String, ◌≡◌, ltb, nat_eq, text_eq, pair_eq, find_row, delete_rows, Table, arith, ◌⊎◌,
  subst, sym, is_some, add_row, find_row-new, find_row-delete_rows,
}
use palla_sync.Json.{n, Value}
use palla_sync.Crypto.Primitives.{External}
use palla_sync.Db.{Chain, Db, World, DeletionRow}
use palla_sync.Db.Stays.{Stays, stays_rules}
use palla_sync.Store.Objects.{object as find_body}
use palla_sync.Config.{RelayConfig}
use palla_sync.Auth.Rate.{Floats, rate}
use palla_sync.Auth.Token.{AuthRequest, NonceKey, nonce_key}
use palla_sync.Auth.Authenticate.{
  reserve_nonce, authority, authenticate_at, authenticate, chain_key, check_barrier, purge,
  check_token, admit, DeviceState,
}
use palla_sync.Auth.{registry_status}

-- The checks before the nonce read only.
module _ ⦃x : External⦄ {P : World → Type 0} where
  chain_key-Stays :
      (c : Chain) (chain : String) (id : Option String) → Stays P (chain_key c chain id)
  unfolding chain_key find_body registry_status
  chain_key-Stays c chain none = search stays_rules
  chain_key-Stays c chain (some id) = search stays_rules

  authority-Stays :
      (d : Option DeletionRow) (c : Option Chain) (r : AuthRequest) (id : Option String)
      → Stays P (authority d c r id)
  unfolding authority
  authority-Stays (some d) c r id = search stays_rules
  authority-Stays none (some c) r id = chain_key-Stays c r.chain_id id
  authority-Stays none none r id = search stays_rules

  check_barrier-Stays : (cfg : RelayConfig) (issued : ℕ) → Stays P (check_barrier cfg issued)
  unfolding check_barrier
  check_barrier-Stays cfg issued = search stays_rules

  pub check_token-Stays :
      (cfg : RelayConfig) (r : AuthRequest) (token : Value) (t : ℕ)
      → Stays P (check_token cfg r token t)
  unfolding check_token
  check_token-Stays cfg r token t =
      search (stays_rules, authority-Stays, check_barrier-Stays) depth 20

abbrev reserved : NonceKey → ℕ → Table NonceKey ℕ → Table NonceKey ℕ
reserved j i rows = if is_some (find_row j rows) then rows else add_row j i rows

find_row-reserved :
    (j k : NonceKey) (i e : ℕ) (rows : Table NonceKey ℕ)
    → find_row k rows ≡ some e
    → find_row k (reserved j i rows) ≡ some e
find_row-reserved j k i e rows h = elim (Bool-cases (is_some (find_row j rows))) [
  | inl there ↦ ground (arith, h, there)
  | inr new ↦ ground (arith, find_row-new k j e i rows h new)
]

reserve_nonce-rows :
    (c : String) (token : Value) (t : ℕ) (w : World)
    → (reserve_nonce c token t w).1.nonces
      ≡ reserved (nonce_key c token) (n token "expires_at_ms" + 60000) (purge t w.db).nonces
unfolding reserve_nonce
reserve_nonce-rows c token t w = ground arith

-- The nonce `k` is on record until `e`, or its time was over at `t`.
abbrev pub IsSpent : NonceKey → ℕ → ℕ → Db → Type 0
IsSpent k e t db = (find_row k db.nonces ≡ some e) ⊎ (ltb e t ≡ true)

-- Since `w` the clock is the same and was not read less, and the nonce is spent at `t`.
pub record SpentSince (k : NonceKey) (e t : ℕ) (w w' : World) : Type 0 where
  pub time : w'.time ≡ w.time
  pub reads : w.reads ≤ w'.reads
  pub spent : IsSpent k e t w'.db

module _ ⦃x : External⦄ ⦃f : Floats⦄ (k : NonceKey) (e t : ℕ) (w : World) where
  reserve_nonce-IsSpent :
      (c : String) (token : Value) (w₁ : World)
      → IsSpent k e t w₁.db
      → IsSpent k e t (reserve_nonce c token t w₁).1.db
  reserve_nonce-IsSpent c token w₁ (inr h) = inr h
  reserve_nonce-IsSpent c token w₁ (inl h) = elim (Bool-cases (ltb e t)) [
    | inl late ↦ inr late
    | inr early ↦ inl (
        subst (λ rows. find_row k rows ≡ some e) (sym (reserve_nonce-rows c token t w₁))
          (find_row-reserved (nonce_key c token) k (n token "expires_at_ms" + 60000) e
            (purge t w₁.db).nonces (find_row-delete_rows k e (λ j i. ltb i t) w₁.nonces early h)))
  ]

  reserve_nonce-spent :
      (c : String) (token : Value) → Stays (SpentSince k e t w) (reserve_nonce c token t)
  unfolding reserve_nonce
  reserve_nonce-spent c token = record {
    after = λ w₁ h. record {
      time = ground (arith, h.time);
      reads = ground (arith, h.reads);
      spent = reserve_nonce-IsSpent c token w₁ h.spent;
    };
  }

  rate-spent :
      (cfg : RelayConfig) (scope identity : String)
      → Stays (SpentSince k e t w) (rate cfg scope identity)
  unfolding rate
  rate-spent cfg scope identity = record {
    after = λ w₁ h. record {
      time = ground (arith, h.time);
      reads = ground (arith, h.reads);
      spent = ground (arith, h.spent);
    };
  }

  admit-spent :
      (cfg : RelayConfig) (r : AuthRequest) (token : Value) (checked : Option Chain × DeviceState)
      → Stays (SpentSince k e t w) (admit cfg r token checked)
  unfolding admit
  admit-spent cfg r token checked = search (stays_rules, rate-spent)

  pub authenticate_at-spent :
      (cfg : RelayConfig) (r : AuthRequest) (token : Value)
      → Stays (SpentSince k e t w) (authenticate_at cfg r token t)
  unfolding authenticate_at
  authenticate_at-spent cfg r token =
      search (stays_rules, check_token-Stays, reserve_nonce-spent, admit-spent)
