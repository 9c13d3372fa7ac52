-- ===== src/Tracker.antt =====
-- tracker/mutracker: a mutex for each record, in a map that grows.
pub mod Locks
pub mod Invariant
pub mod Turns
pub mod Exclusion
