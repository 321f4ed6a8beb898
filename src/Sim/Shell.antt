-- ===== src/Sim/Shell.antt =====
-- The shell presets of src/forge/sim.rs (POSIX and U-Boot).
pub mod Env
pub mod Words
pub mod Commands
pub mod Handler
