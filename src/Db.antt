-- ===== src/Db.antt =====
-- The database of src/db/schema.sql, one table for each that the modelled code uses, and what a
-- request reads of the world besides: the clock and new identifiers. A column of JSON text holds the
-- value itself. A request's code is an action, which leaves the world that it reached beside an
-- error too; it is the caller that rolls a transaction back.
pub mod Action
pub mod Inversion
pub mod Keeps
pub mod Stays
use palla_sync.Prelude.{
  ℕ, Bool, true, false, Option, List, String, Equality, ◌==◌, nat_eq, ◌≡◌, ◌↔◌, refl, Table, arith,
}
use palla_sync.Json.{Value}

-- `kind` of v3_objects; `sync_record` is 'record'.
pub data Kind : Type 0 where
  parameters epoch device envelope compaction admin sync_record snapshot_part : Kind

abbrev pub kind_number : Kind → ℕ
kind_number parameters = 0
kind_number epoch = 1
kind_number device = 2
kind_number envelope = 3
kind_number compaction = 4
kind_number admin = 5
kind_number sync_record = 6
kind_number snapshot_part = 7

abbrev pub kind_text : Kind → String
kind_text parameters = "parameters"
kind_text epoch = "epoch"
kind_text device = "device"
kind_text envelope = "envelope"
kind_text compaction = "compaction"
kind_text admin = "admin"
kind_text sync_record = "record"
kind_text snapshot_part = "snapshot_part"

abbrev kind_beq : Kind → Kind → Bool
kind_beq j k = kind_number j == kind_number k

pub kind_beq_iff : (j k : Kind) → (kind_beq j k ≡ true) ↔ (j ≡ k)
kind_beq_iff j k = ground arith

instance abbrev pub kind_eq : Equality Kind
kind_eq = record { same = kind_beq; decides = kind_beq_iff _ _ }

-- `status` of v3_registry
pub data Status : Type 0 where
  active pending_keys revoked : Status

-- The state of a chain (`Chain` of src/api/store.rs).
pub record Chain : Type 0 where
  pub chain_id : String
  pub parameters : Value
  pub epoch : Value
  pub log_id : String
  pub head_seq : ℕ
  pub head_hash : String
  pub min_available_seq : ℕ
  pub boundary_compaction_id : Option String
  pub transparency_id : String
  pub transparency_index : ℕ
  pub transparency_hash : String
  pub writable : Bool
  pub notice_id : String

pub record ObjectRow : Type 0 where
  pub object_hash : String
  pub body : Option Value
  pub log_id : Option String
  pub relay_seq : Option ℕ

pub record RegistryRow : Type 0 where
  pub generation : ℕ
  pub status : Status
  pub enrolled_seq : ℕ
  pub revoked_seq : Option ℕ

pub record LogRow : Type 0 where
  pub entry : Option Value
  pub head_hash : String

pub record ReceiptRow : Type 0 where
  pub log_id : String
  pub seq : Option ℕ
  pub receipt : Value

pub record TransparencyRow : Type 0 where
  pub entry : Value
  pub hash : String

pub record OutcomeRow : Type 0 where
  pub digest : String
  pub response : Value

-- `status` of v3_offers
pub data OfferStatus : Type 0 where
  awaiting_approval approved rejected : OfferStatus

pub record OfferRow : Type 0 where
  pub offer : Value
  pub request : Option Value
  pub status : OfferStatus
  pub updated_seq : ℕ

pub record DeletionRow : Type 0 where
  pub deleting_device_id : Option String
  pub admin_public_key : String
  pub device_public_key : Option String
  pub proof : Value
  pub outcome : Value
  pub request_hash : String

pub record HandoffRow : Type 0 where
  pub compaction_id : String
  pub due_at_ms : ℕ
  pub expired : Bool

pub record CursorRow : Type 0 where
  pub chain_id : String
  pub binding : Value
  pub state : Value
  pub expires_at_ms : ℕ

pub record OperatorRow : Type 0 where
  pub origin : String
  pub relay_key_id : String
  pub revision : ℕ
  pub disclosure_hash : String

abbrev pub ObjectKey : Type 0
ObjectKey = String × (Kind × String)

abbrev pub SeqKey : Type 0
SeqKey = String × (String × ℕ)

pub record Db : Type 0 where
  pub chains : Table String Chain
  pub objects : Table ObjectKey ObjectRow
  pub registry : Table (String × String) RegistryRow
  pub log : Table SeqKey LogRow
  pub receipts : Table ObjectKey ReceiptRow
  pub transparency : Table SeqKey TransparencyRow
  pub heads : Table SeqKey Value
  -- chain, signer kind, device or "", nonce; the time of expiry
  pub nonces : Table (String × (String × (String × String))) ℕ
  pub outcomes : Table (String × (String × String)) OutcomeRow
  pub offers : Table (String × String) OfferRow
  pub cursors : Table String CursorRow
  pub deletions : Table String DeletionRow
  -- chain and hash of the ledger; the proof as it was before completion
  pub delete_versions : Table (String × String) Value
  pub imports : List String
  pub payload_nonces : Table (String × (ℕ × String)) String
  pub handoffs : Table (String × ℕ) HandoffRow
  pub restart_barrier : ℕ
  -- the one row of v3_operator
  pub operator : Option OperatorRow
  -- scope and identity; the tokens, a double by its bits, and the time
  pub rates : Table (String × String) (ℕ × ℕ)
  pub notices : Table String Value
  -- the newest row of a device's registry history stands in front
  pub registry_history : List (String × (String × RegistryRow))

pub record World : Type 0 where
  pub db : Db
  pub open db use *
  -- the clock as it is read, and how often it was
  pub time : ℕ → ℕ
  pub reads : ℕ
  -- the identifiers that are drawn, and how many were
  pub fresh_id : ℕ → String
  pub drawn : ℕ
