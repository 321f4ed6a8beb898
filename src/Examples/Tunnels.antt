-- ===== src/Examples/Tunnels.antt =====
-- Two RFC2217 sessions back to back, the second fed in two reads.
use ttyforge.Rfc2217.Telnet.{new, start, negotiate, decode, escape, subneg}
use ttyforge.Common.{Bytes, ◌≡◌, refl, true, some, List, [], ◌∷◌, ◌++◌}
use ttyforge.Common.Interleaving.{done, left, right}
use ttyforge.Wire.Float.{scaled}
use ttyforge.Wire.Plan.{line_time, transform, jitter_sample, plan_chunks, plan}
use ttyforge.Wire.Delivery.{got}
use ttyforge.Rfc2217.Settings.{PortSettings, to_be_bytes, commands_to, settings_eq}
use ttyforge.Rfc2217.Settings.Termios.{LineModes}
use ttyforge.Bridge.Session.{
  PeerRead, received, Observed, UpEvent, port_read, tick, uplink_loop, downlink_loop,
}
use ttyforge.Bridge.Session.Stream.{port_bytes}
use ttyforge.Bridge.Session.Inbound.{peer_bytes}
use ttyforge.Bridge.Session.Tunnel.{
  session_up, session_down, Session, ran, Session-transparent, tunnel_prefix,
}
use mathlib.Core.List.{flatten}
use ttyforge.Wire.Chunks.{chunks}
use ttyforge.Examples.Sessions.{clean_wire, clean_wire-IsClean}

abbrev pub unset_settings : PortSettings
unset_settings = record { baud = 0; data_bits = 8; parity = 1; stop_bits = 1; flow = 1 }

abbrev pub at_speed : LineModes → PortSettings
at_speed tio = record unset_settings { baud = tio.ospeed }

abbrev seen : Observed
seen = record {
  com_ok = true;
  termios = some (record { c_cflag = 0; c_iflag = 0; ospeed = 9_600 });
}

abbrev pub typed : List UpEvent
typed = tick seen ∷ port_read (got (1 ∷ 255 ∷ [])) seen ∷ port_read (got (2 ∷ [])) seen ∷ []

-- The peer asks for an option that is on, and sends a byte.
abbrev pub answered : List PeerRead
answered = received (255 ∷ 253 ∷ 1 ∷ 7 ∷ []) ∷ []

-- The answer to the peer goes out between the settings and the data, whose last byte is cut off.
abbrev socket : Bytes
socket =
    start new
    ++ (255 ∷ 250 ∷ 44 ∷ 1 ∷ 0 ∷ 0 ∷ 37 ∷ 128 ∷ 255 ∷ 240 ∷ 255 ∷ 252 ∷ 1 ∷ 1 ∷ 255 ∷ 255 ∷ [])

near :
    Session at_speed scaled clean_wire clean_wire 0 unset_settings typed answered socket
      (2 ∷ [])
      (7 ∷ [])
      []
unfolding uplink_loop session_up settings_eq commands_to plan plan_chunks chunks transform scaled
    downlink_loop session_down decode new negotiate subneg escape to_be_bytes line_time
    jitter_sample start flatten
near = ran (left (right (left (left done)))) refl refl

Session-transparent_example :
    ((decode new socket).1.payload ++ (decode (decode new socket).0 (2 ∷ [])).1.payload
      ≡ 1 ∷ 255 ∷ 2 ∷ [])
    × (7 ∷ [] ≡ (decode new (peer_bytes answered)).1.payload)
unfolding new
Session-transparent_example =
    Session-transparent at_speed scaled clean_wire clean_wire 0 unset_settings typed answered socket
      (2 ∷ []) (7 ∷ []) [] new near clean_wire-IsClean clean_wire-IsClean refl

-- The second session has read the first's socket in two reads, and its end keeps a byte from the port.
abbrev read_in_two : List PeerRead
read_in_two =
    received (255 ∷ 251 ∷ 0 ∷ 255 ∷ 253 ∷ [])
    ∷ received (
        0 ∷ 255 ∷ 251 ∷ 3 ∷ 255 ∷ 253 ∷ 3 ∷ 255 ∷ 251 ∷ 44 ∷ 255 ∷ 250 ∷ 44 ∷ 1 ∷ 0 ∷ 0 ∷ 37 ∷ 128
        ∷ 255 ∷ 240 ∷ 255 ∷ 252 ∷ 1 ∷ 1 ∷ 255 ∷ 255 ∷ [])
    ∷ []

far :
    Session at_speed scaled clean_wire clean_wire 0 unset_settings [] read_in_two
      (start new ++ (255 ∷ 254 ∷ 1 ∷ []))
      []
      (1 ∷ [])
      (255 ∷ [])
unfolding uplink_loop session_up plan plan_chunks chunks transform scaled downlink_loop session_down
    decode new negotiate line_time jitter_sample start flatten
far = ran (right done) refl refl

tunnel_prefix_example :
    (1 ∷ []) ++ ((255 ∷ []) ++ (decode (decode new (peer_bytes read_in_two)).0 (2 ∷ [])).1.payload)
    ≡ port_bytes typed
unfolding start decode new
tunnel_prefix_example =
    tunnel_prefix at_speed scaled clean_wire clean_wire clean_wire clean_wire 0 0 unset_settings
      unset_settings typed [] answered read_in_two socket (2 ∷ []) (7 ∷ []) []
      (start new ++ (255 ∷ 254 ∷ 1 ∷ [])) [] (1 ∷ []) (255 ∷ []) [] near far clean_wire-IsClean
      clean_wire-IsClean clean_wire-IsClean clean_wire-IsClean refl
