-- ===== src/Bridge/Turns.antt =====
-- `bridge_loop` of src/forge/bridge.rs: peer after peer, each with a session of its own, over wires
-- that are built for it.
pub mod Legs
pub mod Carried
use ttyforge.Common.{Bytes, ℕ, suc, ◌+◌, ◌≡◌, Bool, true, false, some, List, [], ◌∷◌, ◌++◌}
use ttyforge.Wire.Float.{Float64}
use ttyforge.Wire.Plan.{WireSpec, Wire, build_pair_nth}
use ttyforge.Wire.Plan.Payload.{payload}
use ttyforge.Wire.Delivery.{Read}
use ttyforge.Wire.Delivery.Recorded.{recorder}
use ttyforge.Rfc2217.Settings.{PortSettings}
use ttyforge.Rfc2217.Settings.Termios.{LineModes, from_termios}
use ttyforge.Bridge.Session.{
  PeerRead, Leg, up_loop, down_loop, UpEvent, port_read, tick, drain_while_down,
}
use ttyforge.Bridge.Session.Inbound.{message_log}
use ttyforge.Bridge.Session.Tunnel.{Session}
use mathlib.Core.List.{flatten}

-- A peer: what `drain_while_down` reads before it comes, when it comes, and what its session reads
-- from the port and from it. The polls are those of an RFC2217 session.
pub record Visit : Type 0 where
  pub drained : List Read
  pub at : ℕ
  pub ups : List UpEvent
  pub downs : List PeerRead

abbrev pub port_reads : List UpEvent → List Read
port_reads [] = []
port_reads (port_read r o ∷ es) = r ∷ port_reads es
port_reads (tick o ∷ es) = port_reads es

module _ (from_termios : LineModes → PortSettings) (fl : Float64)
    (flush : List Bytes → List Bytes × Bool) where
  open fl use {F}

  -- A direction of `run_session`, as it is set up.
  abbrev pub raw_leg : {S : Type 0} → Wire F → ℕ → S → Leg F S
  raw_leg w now s = record { wire = w; clock = now; sink = s; going = true }

  -- One session, the `session`th: the bytes on its socket and those it writes to the port. It is
  -- over when one direction has ended; the other is aborted then, wherever in a write it is, and the
  -- one that has ended may have failed in a write, so that the last bytes of either may be cut off.
  pub data Served (spec : WireSpec F) (pristine : PortSettings) (session : ℕ) (v : Visit)
      : Bool → Bytes → Bytes → Type 0 where
    raw :
        {to_peer from_peer : Wire F} {socket port : Bytes} (cut cut' : Bytes)
        → build_pair_nth fl v.at spec session ≡ some (to_peer, from_peer)
        → socket ++ cut
          ≡ flatten (up_loop fl message_log flush (raw_leg to_peer v.at []) (port_reads v.ups)).sink
        → port ++ cut' ≡ payload (down_loop fl recorder (raw_leg from_peer v.at []) v.downs).sink
        → Served spec pristine session v false socket port
    telnet :
        {to_peer from_peer : Wire F} {socket port : Bytes} (cut cut' : Bytes)
        → build_pair_nth fl v.at spec session ≡ some (to_peer, from_peer)
        → Session from_termios fl to_peer from_peer v.at pristine v.ups v.downs socket cut port cut'
        → Served spec pristine session v true socket port

  -- A run of the loop behind `session` sessions: the peers that came, the bytes on each one's
  -- socket, those that each session wrote to the port, and the number of those discarded between
  -- the sessions.
  pub data Bridged (spec : WireSpec F) (pristine : PortSettings) (rfc2217 : Bool)
      : ℕ → List Visit → List Bytes → List Bytes → ℕ → Type 0 where
    waits : {session : ℕ} → Bridged spec pristine rfc2217 session [] [] [] 0
    turn :
        {session discarded : ℕ} {v : Visit} {vs : List Visit} {socket port : Bytes}
        {sockets ports : List Bytes}
        → Served spec pristine (suc session) v rfc2217 socket port
        → Bridged spec pristine rfc2217 (suc session) vs sockets ports discarded
        → Bridged spec pristine rfc2217 session
            (v ∷ vs)
            (socket ∷ sockets)
            (port ∷ ports)
            ((drain_while_down 0 0 v.drained).0 + discarded)
