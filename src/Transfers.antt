-- ===== src/Transfers.antt =====
-- crates/transfers: endpoints, the job queue over the table `transfer_jobs`, and the worker's loop.
pub mod Endpoint
pub mod Names
pub mod Rows
pub mod Queue
pub mod Policy
pub mod Recovery
pub mod Codec
pub mod Find
pub mod Claims
pub mod History
pub mod Moves
pub mod Worker
pub mod Lifecycle
mod Tests
