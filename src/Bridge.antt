-- ===== src/Bridge.antt =====
-- src/forge/bridge.rs: a virtual port bridged to a remote peer.
pub mod Endpoint
pub mod Backoff
pub mod Session
pub mod Turns
