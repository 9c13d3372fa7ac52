-- ===== src/Settings.antt =====
-- preferences/ and credentials/: what the user sets.
pub mod Preferences
pub mod Credentials
