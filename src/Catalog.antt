-- ===== src/Catalog.antt =====
-- store/catalog: the record store and the blob store behind one interface.
pub mod Metadata
pub mod Stores
pub mod Cards
pub mod Consistency
pub mod Integrity
pub mod Repairs
