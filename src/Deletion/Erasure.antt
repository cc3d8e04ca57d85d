-- ===== src/Deletion/Erasure.antt =====
-- What deletion removes and how it is completed (`erase` and `complete` of src/api/deletion.rs). The
-- histories of offers are not in the model; SQLite's answer to the checkpoint is an argument.
pub mod Laws
pub mod Completion
use palla_sync.Prelude.{
  ℕ, Bool, ◌&&◌, Option, none, some, List, [], ◌∷◌, String, ◌==◌, text_eq, nat_eq, pair_eq, is_some,
  is_empty, Table, find_row, add_row, update_row, select_rows, delete_rows, select, not,
  if◌then◌else◌,
}
use palla_sync.Json.{Value, Members, obj, num, str, ◌!◌, is_null, s, set_member, remove}
use palla_sync.Error.{storage_unavailable, internal_error}
use palla_sync.Crypto.Primitives.{External}
use palla_sync.Crypto.{sign_relay, object_hash}
use palla_sync.Db.{kind_eq, DeletionRow, RegistryRow, Db}
use palla_sync.Db.Action.{
  Action, ◌>>=◌, ◌>>◌, pure, fail_if, gets, modify, require, now, transaction,
}
use palla_sync.Config.{RelayConfig}
use palla_sync.Deletion.{delete_signing}

-- json_extract(proof,'$.ledger.completed_at_ms') IS NULL
abbrev pub is_open : Value → Bool
is_open proof = is_null (proof ! "ledger" ! "completed_at_ms")

abbrev pub is_incomplete : String → DeletionRow → Bool
is_incomplete c r = is_open r.proof

abbrev pub keys_of : {V : Type 0} → Table String V → List String
keys_of [] = []
keys_of ((k, v) ∷ t) = k ∷ keys_of t

unfoldable pub incomplete : Db → Table String DeletionRow
incomplete db = select_rows is_incomplete db.deletions

-- DELETE FROM … WHERE chain_id=?, for each table with ciphertext or state. What is public stays.
unfoldable pub erase_chain : String → Db → Db
erase_chain c db = record db {
  objects = delete_rows (λ k r. k.0 == c) db.objects;
  log = delete_rows (λ k r. k.0 == c) db.log;
  registry = delete_rows (λ k r. k.0 == c) db.registry;
  outcomes = delete_rows (λ k r. k.0 == c) db.outcomes;
  offers = delete_rows (λ k r. k.0 == c) db.offers;
  cursors = delete_rows (λ k r. r.chain_id == c) db.cursors;
  imports = select (λ k. not (k == c)) db.imports;
  payload_nonces = delete_rows (λ k r. k.0 == c) db.payload_nonces;
  registry_history = select (λ h. not (h.0 == c)) db.registry_history;
  handoffs = delete_rows (λ k r. k.0 == c) db.handoffs;
}

unfoldable pub erase_chains : List String → Db → Db
erase_chains [] db = db
erase_chains (c ∷ cs) db = erase_chains cs (erase_chain c db)

-- The checkpoint is asked for only if something was erased.
abbrev pub erase_all : Bool → List String → Action (Unit {0})
erase_all busy cs =
    if is_empty cs then pure tt else (modify (erase_chains cs) >> fail_if busy storage_unavailable)

unfoldable pub erase : Bool → Action (Unit {0})
erase busy = do cs ← gets (λ db. keys_of (incomplete db)); erase_all busy cs

abbrev without : String → Value → Value
without k (obj ms) = obj (remove k ms)
without k v = v

-- INSERT OR IGNORE INTO v3_delete_versions
unfoldable pub keep_version : String → Value → Db → Db
keep_version c proof db =
    let key : String × String = (c, s (proof ! "ledger") "receipt_hash") in
    if is_some (find_row key db.delete_versions)
    then db
    else record db { delete_versions = add_row key proof db.delete_versions }

abbrev pub set_proof : Value → DeletionRow → DeletionRow
set_proof proof r = record r { proof = proof }

module _ ⦃x : External⦄ where
  -- The ledger with the time of completion, closed by its new hash.
  unfoldable pub completed_ledger : Value → ℕ → Value
  completed_ledger ledger t =
      let done = set_member ledger "completed_at_ms" (num t) in
      set_member done "receipt_hash" (str (object_hash (without "receipt_hash" done)))

  abbrev pub completed_receipt : Value → Value → Value
  completed_receipt receipt ledger =
      set_member (set_member receipt "completed_at_ms" (ledger ! "completed_at_ms"))
        "ledger_receipt_hash" (ledger ! "receipt_hash")

  -- A proof with its completed ledger and the receipt signed anew.
  abbrev pub completed_proof : Value → Value → Value → Value
  completed_proof proof ledger receipt =
      set_member (set_member proof "ledger" ledger) "delete_receipt" receipt

  abbrev pub write_proof : String → Value → Action (Unit {0})
  write_proof c done =
      modify λ db. record db { deletions = update_row c (set_proof done) db.deletions }

  unfoldable pub complete_at : RelayConfig → String → Value → ℕ → Action (Unit {0})
  complete_at cfg c proof t =
      let ledger = completed_ledger (proof ! "ledger") t in
      require
        (sign_relay cfg.key (completed_receipt (proof ! "delete_receipt") ledger) delete_signing)
        internal_error
      >>= λ receipt. write_proof c (completed_proof proof ledger receipt)

  unfoldable pub complete_row : RelayConfig → String → Value → Action (Unit {0})
  complete_row cfg c proof = do modify (keep_version c proof); t ← now; complete_at cfg c proof t

  unfoldable pub complete_rows : RelayConfig → Table String DeletionRow → Action (Unit {0})
  complete_rows cfg [] = pure tt
  complete_rows cfg ((c, r) ∷ rows) = complete_row cfg c r.proof >> complete_rows cfg rows

  unfoldable pub complete : Bool → RelayConfig → Action (Unit {0})
  complete busy cfg = do erase busy; transaction (gets incomplete >>= complete_rows cfg)
