-- ===== src/Operation.antt =====
-- operation and operation/opcache: the registry of running operations and their reports.
pub mod Types
pub mod Ordered
pub mod Registry
pub mod Reports
pub mod Counting
pub mod Lifecycle
pub mod Ends
