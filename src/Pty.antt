-- ===== src/Pty.antt =====
-- src/forge/pty.rs: the link claimed for a port, its line discipline, and the loops over its
-- descriptor.
pub mod Create
pub mod Link
pub mod Descriptor
pub mod Discipline
