-- ===== src/Bridge/Session/Tunnel.antt =====
-- `run_rfc2217_session` as a whole: the offers, then the two directions, which share the socket to
-- the peer behind a lock that each holds for one message, and the port on the other side.
use ttyforge.Common.{Bytes, ℕ, ◌≡◌, refl, sym, ap, ◌∙◌, true, List, [], ◌∷◌, ◌++◌, append_assoc}
use ttyforge.Common.Interleaving.{Interleaved}
use ttyforge.Rfc2217.Telnet.{in_data, Telnet, new, start, decode}
use ttyforge.Wire.Float.{Float64}
use ttyforge.Wire.Plan.{Cell, Wire}
use ttyforge.Wire.Plan.Payload.{payload}
use ttyforge.Wire.Delivery.{Sink}
use ttyforge.Wire.Delivery.Recorded.{recorder, IsClean}
use ttyforge.Rfc2217.Telnet.Stream.{decode-append}
use ttyforge.Rfc2217.Settings.{PortSettings}
use ttyforge.Rfc2217.Settings.Termios.{LineModes}
use ttyforge.Bridge.Session.{PeerRead, Leg, UpEvent, Uplink, Downlink, uplink_loop, downlink_loop}
use ttyforge.Bridge.Session.Carries.{
  Carries, Carries-nil, Carries-append, Carries-start, Spoken, quiet, Spoken-append, Spoken-said,
  Interleaved-Carries,
}
use ttyforge.Bridge.Session.Stream.{Listener, port_bytes, uplink_loop-IsUp}
use mathlib.Core.List.{flatten}
use ttyforge.Bridge.Session.Inbound.{message_log, peer_bytes, downlink_loop-IsTaking}

-- A socket that takes everything.
abbrev pub tap : Sink Bytes
tap = record { write_all = λ now bytes s. (s ++ bytes, true); done_at = λ now bytes s. now }

abbrev on_tap : Listener Bytes
on_tap = record {
  end = tap;
  Heard = Carries;
  hears = λ now m a s b h c. (refl, Carries-append s m b a h c);
}

abbrev on_log : Listener (List Bytes)
on_log = record {
  end = message_log;
  Heard = Spoken;
  hears = λ now m a s b h c. (refl, Spoken-append h (Spoken-said m a c));
}

module _ (from_termios : LineModes → PortSettings) (fl : Float64) where
  open fl use {F}

  -- The two directions as they are set up.
  unfoldable pub session_up : Wire F → ℕ → PortSettings → Uplink F (List Bytes)
  session_up to_peer now pristine = record {
    leg = record { wire = to_peer; clock = now; sink = []; going = true };
    last = pristine;
  }

  unfoldable pub session_down : Wire F → ℕ → Downlink F (List Cell) (List Bytes)
  session_down from_peer now = record {
    leg = record { wire = from_peer; clock = now; sink = []; going = true };
    telnet = new;
    com_ok = true;
    peer = [];
  }

  -- A run of `run_rfc2217_session`, by what its reads give: the bytes that are on the socket and
  -- those that are written to the port, each with what its end has cut off behind them. The offers
  -- come first, and the lock orders the messages behind them. The session is over when one direction
  -- has ended, in a failed write perhaps; the other is aborted then, wherever in a write it is.
  pub data Session (to_peer from_peer : Wire F) (now : ℕ) (pristine : PortSettings)
      (ups : List UpEvent) (downs : List PeerRead) : Bytes → Bytes → Bytes → Bytes → Type 0 where
    ran :
        {messages : List Bytes} {socket cut port cut' : Bytes}
        → Interleaved
            (uplink_loop from_termios fl message_log (session_up to_peer now pristine) ups).leg.sink
            (downlink_loop fl recorder message_log (session_down from_peer now) downs).peer
            messages
        → socket ++ cut ≡ flatten (start new ∷ messages)
        → port ++ cut'
          ≡ payload
              (downlink_loop fl recorder message_log (session_down from_peer now) downs).leg.sink
        → Session to_peer from_peer now pristine ups downs socket cut port cut'

  -- An RFC2217 session that is up and has sent nothing, over a lossless, clean wire and a socket
  -- that takes every write, whatever is read from the port and whatever settings the polls relay
  -- in between: a telnet peer that is between commands decodes what the socket received to
  -- exactly the bytes read, in order, and is between commands after it.
  pub uplink_transparent :
      (leg : Leg F Bytes) (last : PortSettings) (es : List UpEvent) (t : Telnet)
      → leg.going ≡ true
      → IsClean fl leg.wire
      → leg.sink ≡ []
      → t.state ≡ in_data
      → let u = uplink_loop from_termios fl tap (record { leg = leg; last = last }) es in
        ((decode t u.leg.sink).0.state ≡ in_data)
        × ((decode t u.leg.sink).1.payload ≡ port_bytes es)
  uplink_transparent leg last es t up clean empty h =
      (uplink_loop-IsUp on_tap fl from_termios (record { leg = leg; last = last }) es []
          record { up = up; clean = clean; heard = rw empty Carries-nil }).heard
        t h

  -- A session over lossless, clean wires, whatever is read from the port and from the peer, however
  -- the two directions' messages meet on the socket behind the offers, and wherever its end, or a
  -- write that fails, cuts either of them off: a telnet peer that is between commands decodes the
  -- socket to the first of the bytes read from the port, in order and all of them but those that
  -- the part cut off carries, and the port has the first of what a fresh codec decodes from the
  -- bytes read from the peer, all of it but the part cut off.
  pub Session-transparent :
      (to_peer from_peer : Wire F) (now : ℕ) (pristine : PortSettings) (ups : List UpEvent)
      (downs : List PeerRead) (socket cut port cut' : Bytes) (t : Telnet)
      → Session to_peer from_peer now pristine ups downs socket cut port cut'
      → IsClean fl to_peer
      → IsClean fl from_peer
      → t.state ≡ in_data
      → let (t', told) = decode t socket in
        (told.payload ++ (decode t' cut).1.payload ≡ port_bytes ups)
        × (port ++ cut' ≡ (decode new (peer_bytes downs)).1.payload)
  unfolding flatten session_up session_down
  Session-transparent to_peer from_peer now pristine ups downs socket cut port cut' t
        (ran {messages = zs} i s p) c c' h =
      let up =
        uplink_loop-IsUp on_log fl from_termios (session_up to_peer now pristine) ups []
          record { up = refl; clean = c; heard = quiet } in
      let (silent, e) =
        downlink_loop-IsTaking fl (session_down from_peer now) downs []
          record { up = refl; clean = c'; silent = tt; at_port = refl } in
      let (_, whole) =
        Carries-append (start new) (flatten zs) [] (port_bytes ups) (Carries-start new)
          (Interleaved-Carries i up.heard silent) t h in
      (
        ap (λ d. d.1.payload) (sym (decode-append t socket cut))
            ∙ ap (λ b. (decode t b).1.payload) s
            ∙ whole,
        p ∙ e,
      )

  -- Two sessions back to back, over lossless, clean wires, each cut off anywhere by its end: what the
  -- second has read of the first's socket, cut anyhow into reads and perhaps not all of it yet, has
  -- put the first of the bytes read from the first port on the second port, in order; the others
  -- are those that the second session's end has kept from the port, and those that the rest of the
  -- first's socket, and what its end has cut off there, still carry.
  pub tunnel_prefix :
      (w w' v v' : Wire F) (now now' : ℕ) (q q' : PortSettings) (ups ups' : List UpEvent)
      (downs downs' : List PeerRead) (sent cut port lost sent' cut' port' lost' rest : Bytes)
      → Session w w' now q ups downs sent cut port lost
      → Session v v' now' q' ups' downs' sent' cut' port' lost'
      → IsClean fl w
      → IsClean fl w'
      → IsClean fl v
      → IsClean fl v'
      → sent ≡ peer_bytes downs' ++ rest
      → port' ++ (lost' ++ (decode (decode new (peer_bytes downs')).0 (rest ++ cut)).1.payload)
        ≡ port_bytes ups
  unfolding new
  tunnel_prefix w w' v v' now now' q q' ups ups' downs downs' sent cut port lost sent' cut' port'
        lost' rest a b cw cw' cv cv' e =
      let (there, _) =
        Session-transparent w w' now q ups downs sent cut port lost new a cw cw' refl in
      let (_, here) =
        Session-transparent v v' now' q' ups' downs' sent' cut' port' lost' new b cv cv' refl in
      let later = (decode (decode new (peer_bytes downs')).0 (rest ++ cut)).1.payload in
      let whole : peer_bytes downs' ++ (rest ++ cut) ≡ sent ++ cut =
        sym (append_assoc (peer_bytes downs') rest cut) ∙ ap (λ s. s ++ cut) (sym e) in
      sym (append_assoc port' lost' later)
      ∙ ap (λ s. s ++ later) here
      ∙ ap (λ d. d.1.payload) (sym (decode-append new (peer_bytes downs') (rest ++ cut)))
      ∙ ap (λ s. (decode new s).1.payload) whole
      ∙ ap (λ d. d.1.payload) (decode-append new sent cut)
      ∙ there
