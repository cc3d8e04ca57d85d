-- ===== src/Routing.antt =====
-- The requests of the relay (src/api/sync.rs): their paths, the transaction around an operation, and
-- what of a refused request is audited.
pub mod Endpoint
pub mod Audit
pub mod Answer
pub mod Refused
pub mod Shown
pub mod Dispatch
pub mod Admission
pub mod Reading
pub mod Start
