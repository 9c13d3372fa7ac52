-- ===== src/Facade.antt =====
-- facade/: the services that a client of the library calls.
pub mod Vault
pub mod Cache
pub mod Schedule
pub mod Update
pub mod Progress
pub mod Import
pub mod Integrity
pub mod IntegrityReport
pub mod Effects
pub mod ImportReport
pub mod Export
pub mod ExportReport
pub mod Queries
pub mod Controls
pub mod Upload
