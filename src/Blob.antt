-- ===== src/Blob.antt =====
-- store/blob: the stores of card files.
pub mod Tables
pub mod Codec
pub mod Sql
pub mod Versions
pub mod Prunes
pub mod Puts
pub mod Atomic
pub mod Deletes
