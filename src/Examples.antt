-- ===== src/Examples.antt =====
-- Concrete runs: each theorem of the results applied to an input of the code.
mod Wires
mod Tunnels
mod Visits
mod Queues
mod Races
mod Reports
mod Machines
mod Kernels
mod Telnets
mod Sessions
mod Links
mod Shells
mod Consoles
mod Endpoints
