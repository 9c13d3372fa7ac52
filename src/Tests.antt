-- ===== src/Tests.antt =====
-- Runs of the models, and the theorems at concrete inputs.
mod Samples
mod Schedules
mod TrackerRuns
mod RegistryRuns
mod ResourceRuns
mod BlobRuns
mod CatalogRuns
mod FacadeRuns
mod SettingsRuns
mod RepairRuns
mod PblobRuns
mod RecordRuns
mod LibraryRuns
mod QueryRuns
mod UploadRuns
