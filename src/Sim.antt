-- ===== src/Sim.antt =====
-- src/forge/sim.rs: the simulated devices and the loop that puts one behind a port.
pub mod Line
pub mod At
pub mod Shell
pub mod Device
pub mod Exec
