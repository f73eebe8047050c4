-- ===== src/Config.antt =====
-- The configuration of celily (celily/src/config).
pub mod Rules
pub mod Profiles
pub mod Merge
pub mod Directory
pub mod Permissions
mod Tests
