-- ===== src/Lib.antt =====
-- PallaSync relay: a library of the v3 relay's rules and their correctness. The relay stores signed
-- objects of clients, links them into hash-chained logs, answers with signed receipts, and checks
-- signatures, authority and the state of each chain; it reads no plaintext.
--
-- The parts and how they meet. A request's body is read in the strict JSON profile
-- (src/crypto/jcs.rs: Crypto/Jcs), its objects are checked against closed schemas (src/api/wire.rs:
-- Wire) and their signatures against keys (src/crypto/verify.rs: Crypto). The path of a request
-- selects its endpoint (src/api/sync.rs: Routing/Endpoint). Its capability token is authenticated
-- and its nonce spent (src/api/auth.rs: Auth). An operation on a chain (src/api/mutation.rs:
-- Mutation) applies the protocol's rules (src/api/domain.rs: Domain), appends objects to the log
-- and to the transparency log (src/api/store.rs: Store), and records its outcome. Pruning hands old
-- epochs off and expires their envelopes (src/api/retention.rs: Retention). Records, snapshot
-- parts, repairs and envelopes arrive in batches, each item in a transaction of its own
-- (src/api/batch.rs: Batch). A chain is deleted in two steps: the request enters the ledger, and
-- later its rows are erased and the deletion completed (src/api/deletion.rs: Deletion). The log and
-- the transparency log are read in pages that a cursor continues (src/api/read.rs: Read). A request
-- runs in one transaction, and a refused one is rolled back and audited (src/api/sync.rs: Routing);
-- uploads and the request of a device that is not enrolled run apart (Routing/Admission).
-- Errors are the closed catalogue of src/api/error.rs (Error), the configuration that requests read
-- is src/config.rs (Config).
--
-- How state corresponds to the code. Db is a record with one table of src/db/schema.sql per field,
-- each an association list from the primary key; JSON text columns hold the value. World adds the
-- clock, read number by number, and the identifiers that are drawn. A function of a connection and
-- arguments is an Action, from a World to a result and a World (Db/Action): `?` is its bind, an insert
-- that a constraint refuses is STORAGE_UNAVAILABLE, and a `&mut Chain` is passed back in the result.
-- The world that an action reached is there beside an error; rolling back is the caller's. Functions
-- keep the names of the source; where a name was taken, check_… stands for the function of domain.rs
-- of that name, store_snapshot_part for store.rs snapshot_part, change_epoch for mutation.rs epoch.
-- Numbers are u64 below 2^53 as the schemas demand, written as naturals; subtraction stops at 0 as
-- saturating_sub does, or stands behind the source's own comparison.
--
-- Parameters. Crypto/Primitives holds what other packages compute: JCS and JSON reading, SHA-256,
-- Base64, Ed25519 and X25519, UUID and Unicode normalization. Auth/Rate takes the operations on
-- doubles. No theorem assumes a law of them.
--
-- Fuel. The scan of crypto/jcs.rs runs on the number of bytes, and each step takes one; the loop of
-- reject_local_artifacts runs on the size of the value, and each step takes one node off. The walk
-- along enrollment certificates runs on one more than the number of object rows, and each step meets a
-- device that it has not seen. The other loops are structural.
--
-- A transaction undoes the writes of an action that fails (Db/Action.transaction); the clock goes on.
-- That SQLite begins, commits and rolls back without an error of its own is part of the model.
--
-- Invariant holds a record of the store's writes and carries an invariant that each of them keeps
-- over the operations that Invariant/Runs lists. The completion of deletions is not among them, since
-- it erases rows; Invariant/Completion is about it alone.
--
-- Interfaces. Routing/Dispatch takes the listings of objects and of enrollment requests, the export
-- and the re-seeding as a record of handlers. Routing/Answer takes the operation of a request as an
-- argument.
--
-- Not modelled: those handlers, the creation of a chain and the documents of health and privacy in
-- sync.rs handle, the import of a chain, the legacy API, the history of offers, and the process around
-- them, which is I/O or stands outside these parts.
pub mod Prelude
pub mod Json
pub mod Error
pub mod Crypto
pub mod Wire
pub mod Decimal
pub mod Db
pub mod Config
pub mod Store
pub mod Auth
pub mod Domain
pub mod Retention
pub mod Mutation
pub mod Deletion
pub mod Batch
pub mod Read
pub mod Routing
pub mod Invariant
pub mod Tests
