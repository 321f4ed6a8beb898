-- ===== src/Forge.antt =====
-- The runs of the four forges, `run` of src/forge/pair.rs, sim.rs, bridge.rs and mux.rs, and `main` of
-- src/main.rs.
pub mod Host
pub mod Pair
pub mod Sim
pub mod Bridge
pub mod Mux
pub mod Main
pub mod Tidy
pub mod Attempts
pub mod Claims
pub mod Steps
pub mod Holding
pub mod Quiet
pub mod Teardown
pub mod Consumers
pub mod Released
pub mod Refused
pub mod Setup
