-- ===== src/Network/Handler.antt =====
-- celily-lib/src/network/handler.rs: the allowlist handler of the HTTP proxy.
pub mod Escape
pub mod Below
pub mod Quota
pub mod Matching
pub mod Handle
