-- ===== src/Domain/Commit.antt =====
-- `commit_epoch` of src/api/domain.rs: a new epoch enters the log behind its devices, its envelopes
-- and the admin's operation, and its revoked devices lose their place.
use palla_sync.Prelude.{
  ℕ, Bool, ◌&&◌, ◌||◌, Option, none, some, List, [], ◌∷◌, ◌++◌, String, ◌==◌, text_eq, pair_eq,
  text_ltb, find_row, update_row, if◌then◌else◌,
}
use palla_sync.Json.{Value, s, n}
use palla_sync.Crypto.Primitives.{External}
use palla_sync.Db.{Chain, Kind, Status, active, pending_keys, revoked, RegistryRow, Db}
use palla_sync.Db.Action.{Action, ◌>>=◌, ◌>>◌, pure, modify}
use palla_sync.Config.{RelayConfig}
use palla_sync.Store.Append.{append}
use palla_sync.Domain.Devices.{register}
use palla_sync.Domain.Bundles.{ids_of}

-- `sort_by_key`: stable, by the order of the keys.
unfoldable pub insert_by : (Value → Value → Bool) → Value → List Value → List Value
insert_by before v [] = v ∷ []
insert_by before v (u ∷ us) =
    let rest = insert_by before v us in if before u v then u ∷ rest else v ∷ u ∷ us

unfoldable pub sort_by : (Value → Value → Bool) → List Value → List Value
unfolding insert_by
sort_by before [] = []
sort_by before (v ∷ vs) = insert_by before v (sort_by before vs)

abbrev pub by_device : Value → Value → Bool
by_device u v = text_ltb (s u "device_id") (s v "device_id")

abbrev pub by_recipient : Value → Value → Bool
by_recipient u v =
    text_ltb (s u "recipient_kind") (s v "recipient_kind")
    || ((s u "recipient_kind" == s v "recipient_kind")
        && text_ltb (s u "recipient_device_id") (s v "recipient_device_id"))

-- UPDATE v3_registry SET status='revoked'; a trigger adds the changed row to the history.
abbrev pub revoke_row : ℕ → RegistryRow → RegistryRow
revoke_row seq r = record r { status = revoked; revoked_seq = some seq }

abbrev history_of : String → String → Option RegistryRow → List (String × (String × RegistryRow))
history_of c id none = []
history_of c id (some r) = (c, (id, r)) ∷ []

unfoldable pub revoke : String → ℕ → String → Db → Db
revoke c seq id db =
    let rows = update_row (c, id) (revoke_row seq) db.registry in
    record db {
      registry = rows;
      registry_history = history_of c id (find_row (c, id) rows) ++ db.registry_history;
    }

unfoldable pub revoke_all : String → ℕ → List String → Db → Db
unfolding revoke
revoke_all c seq [] db = db
revoke_all c seq (id ∷ ids) db = revoke_all c seq ids (revoke c seq id db)

pub record EpochCommit : Type 0 where
  pub epoch : Value
  pub envelopes : List Value
  pub staged : List Value
  pub admin : Option Value
  pub genesis : Bool

-- The chain that `commit_epoch` has changed, the epoch's entry and the receipts.
pub record Committed : Type 0 where
  pub chain : Chain
  pub entry : Value
  pub receipts : List Value

abbrev pub enrolled_as : Bool → Status
enrolled_as genesis = if genesis then active else pending_keys

module _ ⦃x : External⦄ where
  unfoldable pub append_devices :
      Chain → RelayConfig → Bool → List Value → Action (Chain × List Value)
  append_devices c cfg genesis [] = pure (c, [])
  append_devices c cfg genesis (d ∷ ds) = do
    e ← append c cfg Kind.device d
    register e.chain d (n e.entry "relay_seq") (enrolled_as genesis)
    (c', rs) ← append_devices e.chain cfg genesis ds
    pure (c', e.receipt ∷ rs)

  unfoldable pub append_all : Chain → RelayConfig → Kind → List Value → Action (Chain × List Value)
  append_all c cfg kind [] = pure (c, [])
  append_all c cfg kind (v ∷ vs) = do
    e ← append c cfg kind v
    (c', rs) ← append_all e.chain cfg kind vs
    pure (c', e.receipt ∷ rs)

  abbrev given : Option Value → List Value
  given none = []
  given (some op) = op ∷ []

  unfoldable pub commit_epoch : Chain → RelayConfig → EpochCommit → Action Committed
  commit_epoch c cfg m = do
    (c₁, devices) ← append_devices c cfg m.genesis (sort_by by_device m.staged)
    (c₂, envelopes) ← append_all c₁ cfg Kind.envelope (sort_by by_recipient m.envelopes)
    (c₃, operations) ← append_all c₂ cfg Kind.admin (given m.admin)
    e ← append c₃ cfg Kind.epoch m.epoch
    let ids = ids_of m.epoch "revoked_device_ids"
    modify (revoke_all c.chain_id (n e.entry "relay_seq") ids)
    pure (record {
      chain = record e.chain { epoch = m.epoch };
      entry = e.entry;
      receipts = devices ++ envelopes ++ operations ++ e.receipt ∷ [];
    })
