-- ===== src/Retention/Maintenance.antt =====
-- `maintenance` of src/api/retention.rs: one transaction over the chains with a handoff that is due.
-- SQLite's order of DISTINCT is taken to be that of the table.
use palla_sync.Prelude.{
  pair_eq, nat_eq, text_eq, ℕ, List, String, Table, [], Option, Bool, select_rows, not, some, ◌∷◌,
  if◌then◌else◌, ◌&&◌, leb, contains, none,
}
use palla_sync.Crypto.Primitives.{External}
use palla_sync.Config.{RelayConfig}
use palla_sync.Retention.{expire}
use palla_sync.Db.{Db, HandoffRow, Chain}
use palla_sync.Db.Action.{transaction, Action, ◌>>=◌, ◌>>◌, pure, now, gets}
use palla_sync.Store.Quota.{quota}
use palla_sync.Store.Objects.{load}

abbrev is_due : ℕ → String × ℕ → HandoffRow → Bool
is_due time k r = not r.expired && leb r.due_at_ms time

-- SELECT DISTINCT chain_id, behind the identifiers that were met before.
unfoldable pub distinct_chains : List String → Table (String × ℕ) HandoffRow → List String
distinct_chains met [] = []
distinct_chains met ((k, r) ∷ rows) =
    let again = distinct_chains met rows in
    let fresh = k.0 ∷ distinct_chains (k.0 ∷ met) rows in if contains met k.0 then again else fresh

unfoldable pub due_chains : ℕ → Db → List String
unfolding distinct_chains
due_chains time db = distinct_chains [] (select_rows (is_due time) db.handoffs)

module _ ⦃x : External⦄ where
  abbrev pub maintain_loaded : RelayConfig → String → Option Chain → Action (Unit {0})
  maintain_loaded cfg id none = pure tt
  maintain_loaded cfg id (some c) = expire c >> quota id cfg

  unfoldable pub maintain_chain : RelayConfig → String → Action (Unit {0})
  unfolding expire quota
  maintain_chain cfg id = load id >>= λ found. maintain_loaded cfg id found

  unfoldable pub maintain_chains : RelayConfig → List String → Action (Unit {0})
  unfolding maintain_chain
  maintain_chains cfg [] = pure tt
  maintain_chains cfg (id ∷ ids) = maintain_chain cfg id >> maintain_chains cfg ids

  unfoldable pub maintenance : RelayConfig → Action (Unit {0})
  unfolding maintain_chains due_chains transaction
  maintenance cfg =
      transaction (now >>= λ time. gets (due_chains time) >>= λ ids. maintain_chains cfg ids)
