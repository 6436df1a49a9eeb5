-- ===== src/Vfs.antt =====
-- The virtual file system, crates/vfs/src: paths, the calls of a local provider, archives and ACLs.
pub mod Paths
pub mod Program
pub mod Provider
pub mod Archive
pub mod Acl
pub mod Search
pub mod Create
pub mod Local
pub mod Permitted
mod Tests
