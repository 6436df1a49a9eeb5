-- ===== src/Orchestrator.antt =====
-- crates/orchestrator: the lifecycle of optional runtimes (Code, Office, Browser).
pub mod Model
pub mod Port
pub mod Store
pub mod Instance
pub mod Start
pub mod Stop
pub mod Races
pub mod Interleave
pub mod Manager
pub mod Clients
pub mod Sweep
mod Tests
