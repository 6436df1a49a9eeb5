-- ===== src/Media.antt =====
-- The media service, crates/media/src: the limits on concurrent jobs.
pub mod Limiter
pub mod Concurrent
mod Tests
