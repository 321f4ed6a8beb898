-- ===== src/Bridge/Session.antt =====
-- The sessions of src/forge/bridge.rs: `run_session`, `run_rfc2217_session`, `sync_settings` and
-- `drain_while_down`, each direction as a loop over what its reads give.
pub mod Stream
pub mod Relay
pub mod Tunnel
pub mod Inbound
pub mod Carries
use ttyforge.Common.{
  if◌then◌else◌, Bytes, length, is_empty, ℕ, ◌+◌, ◌*◌, max, Bool, true, false, ◌&&◌, Option, none,
  some, List, [], ◌∷◌,
}
use ttyforge.Wire.Float.{Float64}
use ttyforge.Wire.Plan.{Cell, Wire, plan}
use ttyforge.Wire.Delivery.{
  Sink, Sent, Read, no_consumer, got, read_failed, ms, deliver, deliver_to,
}
use ttyforge.Rfc2217.Telnet.{Decoded, Telnet, com_port_ok, decode, escape}
use ttyforge.Rfc2217.Settings.{PortSettings, commands_to, settings_eq}
use ttyforge.Rfc2217.Settings.Termios.{LineModes, from_termios}

-- What a read of the peer's socket gives.
pub data PeerRead : Type 0 where
  closed : PeerRead
  received : Bytes → PeerRead
  peer_failed : PeerRead

-- A direction of a session, and whether its loop goes on.
pub record Leg (F S : Type 0) : Type 0 where
  pub wire : Wire F
  pub clock : ℕ
  pub sink : S
  pub going : Bool

-- `for x in messages { write_all(x)?; }` without a sleep in between.
unfoldable pub write_each : {S : Type 0} → Sink S → ℕ → List Bytes → S → S × Bool
write_each k now [] s = (s, true)
write_each k now (m ∷ ms) s =
    let (s', done) = k.write_all now m s in
    let rest = write_each k now ms s' in if done then rest else (s', false)

module _ (fl : Float64) {S : Type 0} (k : Sink S) where
  open fl use {F}

  -- The rounds of `run_session`'s port-to-peer loop.
  unfoldable pub up_round : (S → S × Bool) → Leg F S → Read → Leg F S
  unfolding deliver_to
  up_round flush l no_consumer = record l { clock = l.clock + 50 * ms }
  up_round flush l (got bytes) =
      let (w', sent) = deliver_to fl k flush l.clock l.wire bytes l.sink in
      record { wire = w'; clock = sent.clock; sink = sent.sink; going = sent.delivered }
  up_round flush l read_failed = record l { clock = l.clock + 100 * ms }

  -- The rounds of its peer-to-port loop.
  unfoldable pub down_round : Leg F S → PeerRead → Leg F S
  unfolding deliver
  down_round l closed = record l { going = false }
  down_round l (received bytes) =
      let (w', sent) = deliver fl k l.clock l.wire bytes l.sink in
      record { wire = w'; clock = sent.clock; sink = sent.sink; going = sent.delivered }
  down_round l peer_failed = record l { going = false }

  -- Either loop, until it breaks.
  unfoldable pub up_loop : (S → S × Bool) → Leg F S → List Read → Leg F S
  unfolding up_round
  up_loop flush l [] = l
  up_loop flush l (r ∷ rs) =
      let next = up_loop flush (up_round flush l r) rs in if l.going then next else l

  unfoldable pub down_loop : Leg F S → List PeerRead → Leg F S
  unfolding down_round
  down_loop l [] = l
  down_loop l (r ∷ rs) = let next = down_loop (down_round l r) rs in if l.going then next else l

  -- The cells of an RFC2217 session, escaped one by one.
  unfoldable pub send_cells : ℕ → List Cell → S → Sent S
  send_cells now [] s = record { sink = s; clock = now; delivered = true }
  send_cells now (c ∷ cells) s =
      let at = max now c.due in
      let (s', done) = k.write_all at (escape c.bytes) s in
      let over = k.done_at at (escape c.bytes) s in
      let rest = send_cells over cells s' in
      if done then rest else record { sink = s'; clock = over; delivered = false }

-- What `sync_settings` finds when it is called: whether the peer takes settings, and the termios.
pub record Observed : Type 0 where
  pub com_ok : Bool
  pub termios : Option LineModes

-- What the `select!` of the RFC2217 session's port-to-peer loop gives.
pub data UpEvent : Type 0 where
  port_read : Read → Observed → UpEvent
  tick : Observed → UpEvent

pub record Uplink (F S : Type 0) : Type 0 where
  pub leg : Leg F S
  pub last : PortSettings

-- The peer-to-port side: the decoder, the shared flag and the peer's socket.
pub record Downlink (F S P : Type 0) : Type 0 where
  pub leg : Leg F S
  pub telnet : Telnet
  pub com_ok : Bool
  pub peer : P

module _ (from_termios : LineModes → PortSettings) where
  -- The settings to record and the commands to send; none where nothing is to be relayed.
  unfoldable pub relayed : Observed → PortSettings → PortSettings × List Bytes
  relayed o last =
      if o.com_ok
      then elim o.termios [
        | none ↦ (last, [])
        | some tio ↦
            if settings_eq (from_termios tio) last
            then (last, [])
            else (from_termios tio, commands_to last (from_termios tio))
      ]
      else (last, [])

  -- `sync_settings`: `last` behind it, the peer, and `false` if the peer is gone.
  unfoldable pub sync_settings :
      {S : Type 0} → Sink S → ℕ → Observed → PortSettings → S → PortSettings × (S × Bool)
  unfolding relayed write_each
  sync_settings k now o last s =
      let (last', commands) = relayed o last in (last', write_each k now commands s)

  module _ (fl : Float64) {S : Type 0} (k : Sink S) where
    open fl use {F}

    -- Bytes read from the port: the settings first, then the cells.
    unfoldable pub send_read : Uplink F S → Observed → Bytes → Uplink F S
    unfolding sync_settings send_cells
    send_read u o bytes =
        let l = u.leg in
        let (last', (s, there)) = sync_settings k l.clock o u.last l.sink in
        let (w', cells) = plan fl l.clock l.wire bytes in
        let sent = send_cells fl k l.clock cells s in
        let leg' =
          if there
          then record { wire = w'; clock = sent.clock; sink = sent.sink; going = sent.delivered }
          else record l { sink = s; going = false } in
        record { leg = leg'; last = last' }

    -- The settings poll.
    unfoldable pub poll : Uplink F S → Observed → Uplink F S
    unfolding sync_settings
    poll u o =
        let (last', (s, there)) = sync_settings k u.leg.clock o u.last u.leg.sink in
        record { leg = record u.leg { sink = s; going = there }; last = last' }

    unfoldable pub uplink_round : Uplink F S → UpEvent → Uplink F S
    unfolding send_read poll
    uplink_round u (port_read no_consumer o) = record u {
      leg = record u.leg { clock = u.leg.clock + 50 * ms };
    }
    uplink_round u (port_read (got bytes) o) = send_read u o bytes
    uplink_round u (port_read read_failed o) = record u {
      leg = record u.leg { clock = u.leg.clock + 100 * ms };
    }
    uplink_round u (tick o) = poll u o

    unfoldable pub uplink_loop : Uplink F S → List UpEvent → Uplink F S
    unfolding uplink_round
    uplink_loop u [] = u
    uplink_loop u (e ∷ es) =
        let next = uplink_loop (uplink_round u e) es in if u.leg.going then next else u

module _ (fl : Float64) {S P : Type 0} (k : Sink S) (peer : Sink P) where
  open fl use {F}

  -- Decoded bytes from the peer: the flag, the reply to the peer, the data to the port.
  unfoldable pub take_decoded : Downlink F S P → Telnet → Decoded → Downlink F S P
  unfolding deliver
  take_decoded d t out =
      let l = d.leg in
      let ok = d.com_ok && com_port_ok t in
      let answered : P × Bool =
        if is_empty out.reply then (d.peer, true) else peer.write_all l.clock out.reply d.peer in
      let (w', sent) = deliver fl k l.clock l.wire out.payload l.sink in
      let delivered : Leg F S = record {
        wire = w';
        clock = sent.clock;
        sink = sent.sink;
        going = sent.delivered;
      } in
      let leg' : Leg F S =
        if answered.1
        then if is_empty out.payload then l else delivered
        else record l { going = false } in
      record { leg = leg'; telnet = t; com_ok = ok; peer = answered.0 }

  unfoldable pub downlink_round : Downlink F S P → PeerRead → Downlink F S P
  unfolding take_decoded
  downlink_round d closed = record d { leg = record d.leg { going = false } }
  downlink_round d (received bytes) = let (t, out) = decode d.telnet bytes in take_decoded d t out
  downlink_round d peer_failed = record d { leg = record d.leg { going = false } }

  unfoldable pub downlink_loop : Downlink F S P → List PeerRead → Downlink F S P
  unfolding downlink_round
  downlink_loop d [] = d
  downlink_loop d (r ∷ rs) =
      let next = downlink_loop (downlink_round d r) rs in if d.leg.going then next else d

-- `drain_while_down`: the bytes discarded and the milliseconds slept.
unfoldable pub drain_while_down : ℕ → ℕ → List Read → ℕ × ℕ
drain_while_down discarded slept [] = (discarded, slept)
drain_while_down discarded slept (no_consumer ∷ rs) = drain_while_down discarded (slept + 50) rs
drain_while_down discarded slept (got bytes ∷ rs) =
    drain_while_down (discarded + length bytes) slept rs
drain_while_down discarded slept (read_failed ∷ rs) = drain_while_down discarded (slept + 100) rs
