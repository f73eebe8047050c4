-- ===== src/Backend.antt =====
-- What the backends share (celily-lib/src/backend/mod.rs).
pub mod Subnet
pub mod Address
pub mod Mount
mod Tests
