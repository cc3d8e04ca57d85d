-- ===== src/Auth/Rate.antt =====
-- The token bucket of `rate` (src/api/auth.rs). A double is the number of its bits; its operations
-- are those of the machine, the fields of `Floats`.
use palla_sync.Prelude.{
  ℕ, ◌-◌, Bool, Option, none, some, [], ◌∷◌, String, text_eq, pair_eq, find_row, upsert,
  if◌then◌else◌,
}
use palla_sync.Json.{Value, num, str, object, n, ◌!◌}
use palla_sync.Error.{with_context, failed, rate_limited}
use palla_sync.Db.Action.{Action, ◌>>=◌, fail_with, gets, modify, now}
use palla_sync.Config.{RelayConfig}

pub record Floats : Type 0 where
  pub of_u64 : ℕ → ℕ
  pub add : ℕ → ℕ → ℕ
  pub sub : ℕ → ℕ → ℕ
  pub mul : ℕ → ℕ → ℕ
  pub div : ℕ → ℕ → ℕ
  pub min : ℕ → ℕ → ℕ
  pub less : ℕ → ℕ → Bool
  -- `ceil` and the conversion to u64, which saturates
  pub ceil_u64 : ℕ → ℕ

module _ ⦃f : Floats⦄ where
  abbrev pub refill : Value → ℕ
  refill policy = f.div (f.of_u64 (n policy "requests_per_minute")) (f.of_u64 60000)

  -- The tokens at time `t`.
  unfoldable pub tokens_at : Value → ℕ → Option (ℕ × ℕ) → ℕ
  tokens_at policy t none = f.of_u64 (n policy "burst")
  tokens_at policy t (some (old, time)) =
      f.min (f.add old (f.mul (f.of_u64 (t - time)) (refill policy))) (f.of_u64 (n policy "burst"))

  abbrev pub take_token : Value → String → String → ℕ → ℕ → Action (Unit {0})
  take_token policy scope identity t tokens =
      if f.less tokens (f.of_u64 1)
      then fail_with (
          with_context (failed rate_limited) (
            object (
              (
                "retry_after_ms",
                num (f.ceil_u64 (f.div (f.sub (f.of_u64 1) tokens) (refill policy))),
              )
              ∷ ("scope", str scope)
              ∷ [])))
      else modify λ db. record db {
        rates = upsert (scope, identity) (f.sub tokens (f.of_u64 1), t) db.rates;
      }

  unfoldable pub rate : RelayConfig → String → String → Action (Unit {0})
  unfolding tokens_at
  rate cfg scope identity = do
    let policy = cfg.privacy ! "rate_limits" ! scope
    t ← now
    row ← gets (λ db. find_row (scope, identity) db.rates)
    take_token policy scope identity t (tokens_at policy t row)
