-- ===== src/Proxy.antt =====
-- crates/relaykey_app/src/proxy.rs
pub mod Paths
pub mod Headers
pub mod Steps
pub mod Handler
