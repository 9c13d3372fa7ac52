-- ===== src/Records.antt =====
-- store/record/erecord: the record store on SQLite.
pub mod Tables
pub mod Rows
pub mod Store
pub mod Rules
pub mod Found
pub mod Kept
pub mod Columns
pub mod Methods
pub mod Sessions
pub mod Saves
pub mod Linked
pub mod Saved
pub mod Filters
pub mod Phrases
pub mod Selection
pub mod Selecting
pub mod Wording
pub mod Meaning
pub mod Paging
pub mod Removals
