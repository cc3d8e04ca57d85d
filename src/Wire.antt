-- ===== src/Wire.antt =====
-- The closed wire schemas of src/api/wire.rs: field types, objects with fixed fields, signed objects,
-- and the query string.
pub mod Types
pub mod Artifacts
pub mod Signed
pub mod Schemas
pub mod Validate
pub mod Query
