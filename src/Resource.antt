-- ===== src/Resource.antt =====
-- The domain model of store/resource: records, their integrity, and its repair against a sheet.
pub mod Types
pub mod Integrity
pub mod Repair
pub mod Passes
pub mod Filters
