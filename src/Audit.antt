-- ===== src/Audit.antt =====
-- crates/audit: the hash-chained audit log over `audit_events` and `audit_chain_head`.
pub mod Event
pub mod Chain
pub mod Integrity
pub mod Tamper
pub mod Retry
mod Tests
