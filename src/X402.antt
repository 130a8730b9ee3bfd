-- ===== src/X402.antt =====
-- crates/relaykey_app/src/x402/: payment before a request is forwarded (HTTP 402).
pub mod Config
pub mod Provider
pub mod Hash
pub mod Intents
pub mod Checks
pub mod Enforce
