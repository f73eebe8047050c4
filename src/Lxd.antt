-- ===== src/Lxd.antt =====
-- The LXD and Incus backend (celily-lib/src/backend/lxd).
pub mod Acl
pub mod Bridge
pub mod Instance
mod Tests
