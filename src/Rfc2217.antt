-- ===== src/Rfc2217.antt =====
-- src/forge/rfc2217.rs: the telnet codec and the line settings that travel over it.
pub mod Telnet
pub mod Settings
