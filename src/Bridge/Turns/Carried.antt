-- ===== src/Bridge/Turns/Carried.antt =====
-- What `bridge_loop` of src/forge/bridge.rs carries, session after session.
use ttyforge.Rfc2217.Telnet.{new, decode}
use ttyforge.Common.{
  Bytes, ℕ, suc, ◌+◌, ◌≡◌, refl, ap, ◌∙◌, Bool, true, false, none, List, [], ◌∷◌, ◌++◌, arith,
}
use ttyforge.Wire.Float.{Float64}
use ttyforge.Wire.Plan.{WireSpec}
use ttyforge.Wire.Delivery.{no_consumer, got, read_failed}
use ttyforge.Wire.Delivery.Recorded.{read_bytes}
use ttyforge.Rfc2217.Settings.{PortSettings}
use ttyforge.Rfc2217.Settings.Termios.{LineModes}
use ttyforge.Bridge.Session.{UpEvent, port_read, tick}
use ttyforge.Bridge.Session.Stream.{port_bytes}
use ttyforge.Bridge.Session.Relay.{count_read, drain_while_down_lem}
use ttyforge.Bridge.Session.Inbound.{peer_bytes}
use ttyforge.Bridge.Session.Tunnel.{Session-transparent}
use ttyforge.Bridge.Turns.{Visit, port_reads, raw_leg, Served, raw, telnet, Bridged, waits, turn}
use ttyforge.Wire.Delivery.Clean.{build_pair_nth-IsClean}
use ttyforge.Bridge.Turns.Legs.{up_loop-read_bytes, down_loop-peer_bytes}
use mathlib.Core.List.{flatten}

-- The data in a stream: all of it, or what a fresh codec decodes.
abbrev pub told : Bool → Bytes → Bytes
told false bytes = bytes
told true bytes = (decode new bytes).1.payload

abbrev pub Begins : Bytes → Bytes → Type 0
Begins a b = (cut : Bytes) × (a ++ cut ≡ b)

-- Each peer has been told the first of the bytes that were read from the port during its session,
-- and the port the first of the data that were read from the peer.
pub data Told (rfc2217 : Bool) : List Visit → List Bytes → List Bytes → Type 0 where
  nobody : Told rfc2217 [] [] []
  visit :
      {v : Visit} {vs : List Visit} {socket port : Bytes} {sockets ports : List Bytes}
      → Begins (told rfc2217 socket) (port_bytes v.ups)
      → Begins port (told rfc2217 (peer_bytes v.downs))
      → Told rfc2217 vs sockets ports
      → Told rfc2217 (v ∷ vs) (socket ∷ sockets) (port ∷ ports)

abbrev pub drained_bytes : List Visit → ℕ
drained_bytes [] = 0
drained_bytes (v ∷ vs) = count_read v.drained + drained_bytes vs

module _ (from_termios : LineModes → PortSettings) (fl : Float64)
    (flush : List Bytes → List Bytes × Bool)
    (flushes : (s : List Bytes) → flush s ≡ (s, true)) where
  open fl use {F}

  port_reads-bytes : (es : List UpEvent) → read_bytes fl (port_reads es) ≡ port_bytes es
  port_reads-bytes [] = refl
  port_reads-bytes (port_read no_consumer o ∷ es) = port_reads-bytes es
  port_reads-bytes (port_read (got bytes) o ∷ es) = ap (λ b. bytes ++ b) (port_reads-bytes es)
  port_reads-bytes (port_read read_failed o ∷ es) = port_reads-bytes es
  port_reads-bytes (tick o ∷ es) = port_reads-bytes es

  Served-told :
      (spec : WireSpec F) (pristine : PortSettings) (session : ℕ) (v : Visit) (rfc2217 : Bool)
      (socket port : Bytes)
      → spec.drop ≡ none
      → spec.corrupt ≡ none
      → Served from_termios fl flush spec pristine session v rfc2217 socket port
      → Begins (told rfc2217 socket) (port_bytes v.ups)
        × Begins port (told rfc2217 (peer_bytes v.downs))
  unfolding flatten new
  Served-told spec pristine session v rfc2217 socket port d c
        (raw {to_peer = w} {from_peer = w'} cut cut' e s p) =
      let (cw, cw') = build_pair_nth-IsClean fl v.at spec session d c e in
      let there =
        up_loop-read_bytes fl flush flushes (port_reads v.ups)
          (raw_leg from_termios fl flush w v.at []) record { up = refl; clean = cw } in
      let here =
        down_loop-peer_bytes fl v.downs (raw_leg from_termios fl flush w' v.at [])
          record { up = refl; clean = cw' } in
      ((cut, s ∙ there ∙ port_reads-bytes v.ups), (cut', p ∙ here))
  Served-told spec pristine session v rfc2217 socket port d c
        (telnet {to_peer = w} {from_peer = w'} cut cut' e run) =
      let (cw, cw') = build_pair_nth-IsClean fl v.at spec session d c e in
      let (there, here) =
        Session-transparent from_termios fl w w' v.at pristine v.ups v.downs socket cut port cut'
          new run cw cw' refl in
      (((decode (decode new socket).0 cut).1.payload, there), (cut', here))

  -- Session after session, over wires that drop and corrupt nothing and a socket whose flush does
  -- nothing: each peer has been told the first of the bytes that were read from the port while it
  -- was there, each session has put the first of its peer's data on the port, and the bytes read in
  -- between are those discarded. With RFC2217 each peer is told, and heard, by a fresh codec.
  pub Bridged-Told :
      (spec : WireSpec F) (pristine : PortSettings) (rfc2217 : Bool) (session : ℕ) (vs : List Visit)
      (sockets ports : List Bytes) (discarded : ℕ)
      → spec.drop ≡ none
      → spec.corrupt ≡ none
      → Bridged from_termios fl flush spec pristine rfc2217 session vs sockets ports discarded
      → Told rfc2217 vs sockets ports × (discarded ≡ drained_bytes vs)
  Bridged-Told spec pristine rfc2217 session vs sockets ports discarded d c waits = (nobody, refl)
  Bridged-Told spec pristine rfc2217 session vs sockets ports discarded d c
        (turn {discarded = n} {v = v} {vs = ws} {socket = s} {port = p} {sockets = ss} {ports = ps}
          now later) =
      let (t, e) = Served-told spec pristine (suc session) v rfc2217 s p d c now in
      let (ts, ns) = Bridged-Told spec pristine rfc2217 (suc session) ws ss ps n d c later in
      (visit t e ts, omega (arith, ns, drain_while_down_lem 0 0 v.drained))
