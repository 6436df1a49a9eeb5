-- ===== src/Vfs/Permitted.antt =====
-- Which calls the operations of crates/vfs/src make: on paths inside the root, and none that writes
-- for a provider that is not writable.
pub mod Calls
pub mod Provider
pub mod Gives
pub mod Targets
pub mod Archive
pub mod Search
pub mod Create
pub mod Local
