-- ===== src/Routing/Start.antt =====
-- The start of the relay on a database (`AppState::new` of src/api/sync.rs).
pub mod Operator
use palla_sync.Json.{◌!◌, n}
use palla_sync.Db.Action.{◌>>=◌, ◌>>◌, transaction, Action, gets, now, fail_if, pure, modify}
use palla_sync.Prelude.{
  [], select_rows, ℕ, Option, find_row, Bool, if◌then◌else◌, false, some, ltb, List, none, ◌/=◌,
  String, ◌||◌, ◌∷◌, ◌+◌, ◌==◌, not, ◌&&◌, is_some, text_eq, nat_eq,
}
use palla_sync.Crypto.Primitives.{External}
use palla_sync.Deletion.Erasure.{complete, keys_of}
use palla_sync.Store.Quota.{publish_notice, save}
use palla_sync.Config.{RelayConfig}
use palla_sync.Db.{OperatorRow, Chain, Db}
use palla_sync.Domain.{is_text}
use palla_sync.Store.Objects.{load}
use palla_sync.Crypto.{object_hash}
use palla_sync.Error.{invalid_field}

module _ ⦃x : External⦄ where
  abbrev pub revision : RelayConfig → ℕ
  revision cfg = n cfg.privacy "revision"

  -- The row of this configuration.
  unfoldable pub operator_row : RelayConfig → OperatorRow
  unfolding n
  operator_row cfg = record {
    origin = cfg.origin;
    relay_key_id = cfg.key_id;
    revision = revision cfg;
    disclosure_hash = object_hash cfg.privacy;
  }

  -- The database was used by another relay, with a later disclosure, or with another of the same
  -- revision.
  unfoldable pub conflicts : RelayConfig → Option OperatorRow → Bool
  unfolding n
  conflicts cfg none = false
  conflicts cfg (some o) =
      (o.origin /= cfg.origin)
      || (o.relay_key_id /= cfg.key_id)
      || ltb (revision cfg) o.revision
      || ((o.revision == revision cfg) && (o.disclosure_hash /= object_hash cfg.privacy))

  -- INSERT … ON CONFLICT DO UPDATE
  abbrev pub updated_operator : RelayConfig → Option OperatorRow → OperatorRow
  updated_operator cfg none = operator_row cfg
  updated_operator cfg (some o) = record o {
    revision = revision cfg;
    disclosure_hash = object_hash cfg.privacy;
  }

  abbrev later : ℕ → ℕ → ℕ
  later j k = if ltb j k then k else j

  unfoldable pub raise_barrier : RelayConfig → Action (Unit {0})
  raise_barrier cfg =
      if is_text (cfg.privacy ! "replay_protection" ! "mode") "restart_barrier"
      then (now >>= λ t.
          modify λ db. record db { restart_barrier = later db.restart_barrier (t + 60000) })
      else pure tt

  -- The writes of the first transaction.
  unfoldable pub register_row : RelayConfig → Action (Unit {0})
  unfolding raise_barrier conflicts operator_row
  register_row cfg = do
    raise_barrier cfg
    old ← gets (λ db. db.operator)
    fail_if (conflicts cfg old) invalid_field
    modify λ db. record db { operator = some (updated_operator cfg old) }

  unfoldable pub register_operator : RelayConfig → Action (Unit {0})
  unfolding register_row transaction
  register_operator cfg = transaction (register_row cfg)

  abbrev announce_loaded : RelayConfig → Option Chain → Action (Unit {0})
  announce_loaded cfg none = pure tt
  announce_loaded cfg (some c) = publish_notice c cfg >>= λ c₁. save c₁ cfg

  unfoldable pub announce_all : RelayConfig → List String → Action (Unit {0})
  unfolding publish_notice save load
  announce_all cfg [] = pure tt
  announce_all cfg (id ∷ ids) = load id >>= λ c. announce_loaded cfg c >> announce_all cfg ids

  -- The chains that are not deleted.
  unfoldable pub live_chains : Db → List String
  unfolding select_rows find_row
  live_chains db = keys_of (select_rows (λ k c. not (is_some (find_row k db.deletions))) db.chains)

  -- `AppState::new`
  unfoldable pub start_relay : Bool → RelayConfig → Action (Unit {0})
  unfolding register_operator complete announce_all live_chains transaction
  start_relay busy cfg = do
    register_operator cfg
    complete busy cfg
    transaction (gets live_chains >>= announce_all cfg)
