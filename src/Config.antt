-- ===== src/Config.antt =====
-- The relay's configuration (src/config.rs), as far as requests read it.
use palla_sync.Prelude.{ℕ, Bool, Option, none, some, List, [], ◌∷◌, String, leb, if◌then◌else◌}
use palla_sync.Json.{Value, ◌!◌, object, opt_num, opt_str}
use palla_sync.Error.{with_context, failed, relay_shutting_down}
use palla_sync.Db.Action.{Action, ◌>>=◌, pure, fail_with, now}

pub record RelayConfig : Type 0 where
  pub key : List ℕ
  pub origin : String
  pub key_id : String
  pub privacy : Value
  pub max_bytes : Option ℕ
  pub shutdown_at_ms : Option ℕ
  pub migration_origin : Option String
  pub stop_writes : Bool

abbrev pub limits : RelayConfig → Value
limits cfg = cfg.privacy ! "limits"

abbrev shut_down : Bool → RelayConfig → Action (Unit {0})
shut_down b cfg =
    if b
    then fail_with (
        with_context (failed relay_shutting_down) (
          object (
            ("shutdown_at_ms", opt_num cfg.shutdown_at_ms)
            ∷ ("migration_origin", opt_str cfg.migration_origin)
            ∷ [])))
    else pure tt

-- The clock is read only if writes are not stopped and a time is set.
unfoldable pub write_guard : RelayConfig → Action (Unit {0})
write_guard cfg = if cfg.stop_writes then shut_down Bool.true cfg else elim cfg.shutdown_at_ms [
  | none ↦ pure tt
  | some t ↦ now >>= λ time. shut_down (leb t time) cfg
]
