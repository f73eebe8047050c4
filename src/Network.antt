-- ===== src/Network.antt =====
-- The network isolation of an instance (celily-lib/src/network): the allow rules, the HTTP handler
-- and the DNS handler of the proxies, and the parameters of the isolation bridge.
pub mod Rule
pub mod Handler
pub mod Dns
pub mod Params
mod Tests
