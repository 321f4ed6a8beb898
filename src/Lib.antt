-- ===== src/Lib.antt =====
-- ttyforge forges virtual serial ports: pseudo-terminals under stable links, joined to each other
-- (pair), to a simulated device (sim), to a TCP peer (bridge) or to a real port shared by several
-- consumers (mux), with a wire model in between that paces and spoils the bytes.
--
-- The parts, and the files that model them:
--
-- Wire: src/forge/wire.rs. `WireSpec` builds two `Wire`s, one for each direction; `Wire::plan`
-- turns a read into cells with due instants (Wire/Plan), `deliver`, `deliver_to` and `pump` carry
-- them out (Wire/Delivery) against any end that takes writes, a `Sink`; what a cable's rate and delay
-- come to is in Wire/Delivery/Throughput and Wire/Delivery/Delay. The generator is
-- Wire/Rng. Instants and durations are nanoseconds; `f64` and `Duration`'s conversions are the
-- interface Wire/Float, with a fixed-point implementation.
--
-- Rfc2217: src/forge/rfc2217.rs. `Telnet` is the codec of a session: `decode`, `negotiate`,
-- `subnegotiation`, `escape`, `subneg` (Rfc2217/Telnet). `PortSettings` is read from a termios and
-- told to the peer as commands (Rfc2217/Settings).
--
-- Bridge: src/forge/bridge.rs. `Endpoint::parse` (Bridge/Endpoint), `Peers::next` with its redial
-- and accept loops (Bridge/Backoff), and the loops of `run_session`, `run_rfc2217_session` and
-- `drain_while_down` (Bridge/Session), each direction a function of the results of its reads. The
-- RFC 2217 session uses Wire for pacing, Rfc2217 for the stream and the settings.
-- Bridge/Session/Tunnel is the session as a whole: the socket that its two directions share gets
-- their messages in any order that keeps each direction's own, since each holds the lock for one
-- message; what the end of the session cuts off of either stream is a part of the relation.
-- Bridge/Turns is `bridge_loop`: a drain, then a session over the wires of its number, for
-- each peer that comes.
--
-- Sim: src/forge/sim.rs. `LineDevice` over a `LineHandler` (Sim/Line), the AT modem (Sim/At), the
-- POSIX and U-Boot shells (Sim/Shell) with their words, commands and variables,
-- `make_device` and `preset_loop`, which put a device behind a port (Sim/Device), and `exec_loop`,
-- which puts a child process there (Sim/Exec).
--
-- Pty: src/forge/pty.rs. The creation of a port (Pty/Create), the claim of a link and its sidecar
-- (Pty/Link) over the calls of the file system as an interface, the same claim call by call for
-- processes that race for a path (Pty/Link/Calls), and the life of a link from its claim to its drop
-- (Pty/Link/Lives), the loops over a descriptor (Pty/Descriptor), and the reassertion of raw mode
-- (Pty/Discipline) over libc as an interface.
--
-- Serial: src/forge/serial.rs. The speed tables, a platform's codes being a parameter, and the opening
-- of a device (Serial/Device) over the kernel's calls.
--
-- Mux: src/forge/mux.rs. Its four loops (Mux), what a channel's `recv` gives being an argument, and
-- the tasks as steps of one system in any order (Mux/System) over the two channels, which are
-- interfaces (Mux/Channels).
--
-- Status: src/forge/status.rs. The announcement, over serde_json as an interface.
--
-- Run: the errors that the runs return, with the marks `SetupError` and `ChildExit` among their
-- contexts, and the exit codes that `main` makes of them.
--
-- Forge: the `run` of src/forge/pair.rs, sim.rs, bridge.rs and mux.rs from the command line to the end
-- of the process, and `main` of src/main.rs with the command line parsed. Forge/Host is the machine:
-- the interfaces above, the signals of src/forge/signals.rs, and, as one step each, what the tasks do
-- from the announcement to the end of the run, which the files above model. A link is given up
-- by the step that ends the part of the run which holds it.
--
-- Common holds what the parts share, Examples the concrete runs.
--
-- Conventions. A `&mut self` method takes the state and returns the new one; bytes are numbers below
-- 256 and characters are code points; `none` stands for a panic or for fuel that ran out, as the
-- comment at the definition says. A `u64` is reduced modulo 2 ^ 64 where the code wraps.
--
-- Bounds and fuel. `expand_words` runs on one more unit of fuel than the command has characters,
-- since each round takes a character at least. Cells are cut on as much fuel as there are bytes.
-- `try_claim_link` keeps its fuel as an argument, since the number of its rounds depends on the file
-- system. Ports are below 65536, process ids are those of `i32`, and the jitter is below 2 ^ 52
-- nanoseconds where rounding matters.
--
-- Not modelled: the parsing of the command line (clap) and of decimal `f64`s, logging, the messages
-- of errors, the timers that reassert raw mode, the inside of tokio's channels, sockets and timers,
-- a signal that comes before a run has registered its handlers, which kills the process where it is,
-- a sidecar that is read while it is being written, the order in which a mux's ports are closed, and
-- src/forge/mod.rs, which only names modules.
pub mod Common
pub mod Rfc2217
pub mod Wire
pub mod Sim
pub mod Bridge
pub mod Run
pub mod Status
pub mod Forge
pub mod Pty
pub mod Serial
pub mod Mux
pub mod Examples
