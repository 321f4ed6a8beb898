-- ===== src/Examples/Visits.antt =====
-- A bridge that two peers visit, each with bytes dropped before it comes.
use ttyforge.Wire.Plan
use ttyforge.Rfc2217.Telnet.{new, start, negotiate, decode, escape, subneg}
use ttyforge.Common.{Bytes, ◌≡◌, refl, Bool, true, none, some, List, [], ◌∷◌, ◌++◌}
use ttyforge.Common.Interleaving.{done, left, right}
use ttyforge.Wire.Float.{scaled}
use ttyforge.Wire.Plan.{
  WireSpec, cell_bytes_of, line_time, byte_time_of, build_pair_nth, transform, jitter_sample,
  plan_chunks, plan,
}
use ttyforge.Wire.Delivery.{no_consumer, got}
use ttyforge.Rfc2217.Settings.{to_be_bytes, commands_to, settings_eq}
use ttyforge.Bridge.Session.{closed, received, uplink_loop, downlink_loop, drain_while_down}
use ttyforge.Bridge.Turns.{Visit, Served, telnet, Bridged, waits, turn}
use ttyforge.Bridge.Turns.Carried.{Told, drained_bytes, Bridged-Told}
use ttyforge.Bridge.Session.Tunnel.{session_up, session_down, ran}
use mathlib.Core.List.{flatten}
use ttyforge.Wire.Chunks.{chunks}
use ttyforge.Examples.Tunnels.{unset_settings, at_speed, typed, answered}

abbrev late_spec : WireSpec scaled.F
late_spec = record {
  baud = none;
  latency = some 5;
  jitter = none;
  drop = none;
  corrupt = none;
  seed = none;
}

abbrev socket_flush : List Bytes → List Bytes × Bool
socket_flush s = (s, true)

-- The first is told all but the last byte, and the second sends a byte that
-- the end of its session keeps from the port.
abbrev first_visit : Visit
first_visit = record { drained = got (9 ∷ 9 ∷ []) ∷ []; at = 0; ups = typed; downs = answered }

abbrev second_visit : Visit
second_visit = record {
  drained = no_consumer ∷ got (9 ∷ []) ∷ [];
  at = 100;
  ups = [];
  downs = received (8 ∷ []) ∷ closed ∷ [];
}

abbrev first_socket : Bytes
first_socket =
    start new
    ++ (255 ∷ 250 ∷ 44 ∷ 1 ∷ 0 ∷ 0 ∷ 37 ∷ 128 ∷ 255 ∷ 240 ∷ 255 ∷ 252 ∷ 1 ∷ 1 ∷ 255 ∷ 255 ∷ [])

first_session :
    Served at_speed scaled socket_flush late_spec unset_settings 1 first_visit true first_socket
      (7 ∷ [])
unfolding uplink_loop session_up settings_eq commands_to plan plan_chunks chunks transform scaled
    downlink_loop session_down decode new negotiate subneg escape to_be_bytes line_time
    jitter_sample build_pair_nth start flatten Plan.new byte_time_of cell_bytes_of
first_session = telnet (2 ∷ []) [] refl (ran (left (right (left (left done)))) refl refl)

second_session :
    Served at_speed scaled socket_flush late_spec unset_settings 2 second_visit true (start new) []
unfolding uplink_loop session_up settings_eq commands_to plan plan_chunks chunks transform scaled
    downlink_loop session_down decode new negotiate subneg escape to_be_bytes line_time
    jitter_sample build_pair_nth start flatten Plan.new byte_time_of cell_bytes_of
second_session = telnet [] (8 ∷ []) refl (ran done refl refl)

visited :
    Bridged at_speed scaled socket_flush late_spec unset_settings true 0
      (first_visit ∷ second_visit ∷ [])
      (first_socket ∷ start new ∷ [])
      ((7 ∷ []) ∷ [] ∷ [])
      3
unfolding drain_while_down
visited = turn first_session (turn second_session waits)

Bridged-Told_example :
    Told true (first_visit ∷ second_visit ∷ []) (first_socket ∷ start new ∷ []) ((7 ∷ []) ∷ [] ∷ [])
    × (3 ≡ drained_bytes (first_visit ∷ second_visit ∷ []))
Bridged-Told_example =
    Bridged-Told at_speed scaled socket_flush (λ s. refl) late_spec unset_settings true 0
      (first_visit ∷ second_visit ∷ []) (first_socket ∷ start new ∷ []) ((7 ∷ []) ∷ [] ∷ []) 3 refl
      refl visited
