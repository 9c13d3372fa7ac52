-- ===== src/Library.antt =====
-- library: the directories of vaults.
pub mod Vaults
pub mod Laws
