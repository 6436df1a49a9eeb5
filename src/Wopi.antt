-- ===== src/Wopi.antt =====
-- services/clouddeskd: the locks of the WOPI host, through which Office edits files.
pub mod Locks
pub mod Operation
pub mod Exclusion
pub mod Race
pub mod Refines
mod Tests
