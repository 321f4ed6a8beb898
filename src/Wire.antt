-- ===== src/Wire.antt =====
-- src/forge/wire.rs: the wire model.
pub mod Float
pub mod Rng
pub mod Chunks
pub mod Plan
pub mod Delivery
pub mod Parse
