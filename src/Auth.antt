-- ===== src/Auth.antt =====
-- crates/auth: log-in, throttling, sessions, second factors and capabilities.
pub mod Model
pub mod Throttle
pub mod Factor
pub mod Capability
pub mod Session
pub mod Login
pub mod Lasts
pub mod Lockout
pub mod History
pub mod Spent
mod Tests
