-- ===== src/Validate.antt =====
-- celily/src/validate.rs: what may be mounted into an instance or proxied to it.
pub mod Files
pub mod Forbidden
pub mod MountSource
pub mod ProxyConnect
pub mod ExtTransport
pub mod Worktree
mod Tests
