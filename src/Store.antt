-- ===== src/Store.antt =====
-- The durable store of src/api/store.rs: objects, the log, receipts, the transparency log, outcomes
-- and the quota.
pub mod Hashes
pub mod Objects
pub mod Transparency
pub mod Append
pub mod Linked
pub mod Quota
pub mod Outcomes
pub mod Rows
