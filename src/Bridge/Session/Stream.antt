-- ===== src/Bridge/Session/Stream.antt =====
-- What the port-to-peer side of an RFC2217 session writes: messages that carry the bytes read from
-- the port, whatever settings are relayed between them.
use ttyforge.Common.{
  if◌then◌else◌, Bool-cases, Option-cases, Bytes, ℕ, max, ◌≡◌, refl, sym, ◌∙◌, inl, inr, true, List,
  [], ◌∷◌, ◌++◌, append-nil, append_assoc,
}
use ttyforge.Wire.Float.{Float64}
use ttyforge.Wire.Plan.{Cell, plan}
use ttyforge.Wire.Plan.Payload.{payload}
use ttyforge.Wire.Delivery.{Sink, no_consumer, got, read_failed, ms}
use ttyforge.Wire.Delivery.Recorded.{IsClean, plan-IsClean, plan-payload_clean}
use ttyforge.Rfc2217.Telnet.{escape}
use ttyforge.Rfc2217.Settings.{PortSettings, settings_eq}
use ttyforge.Rfc2217.Settings.Termios.{LineModes}
use ttyforge.Bridge.Session.{
  write_each, send_cells, Observed, UpEvent, port_read, tick, Uplink, relayed, sync_settings,
  send_read, poll, uplink_round, uplink_loop,
}
use ttyforge.Bridge.Session.Carries.{Carries, Carries-escape, Silent, Silent-commands_to}
use mathlib.Core.Path.{subst}

-- An end that takes every message, and of which it is known what data it has been told.
pub record Listener (S : Type 0) : Type 1 where
  pub end : Sink S
  pub Heard : S → Bytes → Type 0
  pub hears :
      (now : ℕ) (m a : Bytes) (s : S) (b : Bytes)
      → Heard s b
      → Carries m a
      → ((end.write_all now m s).1 ≡ true) × Heard (end.write_all now m s).0 (b ++ a)

-- The bytes that an event, and events, give to send.
abbrev pub event_bytes : UpEvent → Bytes
event_bytes (port_read (got bytes) o) = bytes
event_bytes (port_read no_consumer o) = []
event_bytes (port_read read_failed o) = []
event_bytes (tick o) = []

abbrev pub port_bytes : List UpEvent → Bytes
port_bytes [] = []
port_bytes (e ∷ es) = event_bytes e ++ port_bytes es

module _ {S : Type 0} (li : Listener S) where
  open li use {end, Heard, hears}

  write_each-Heard :
      (now : ℕ) (ms : List Bytes) (s : S) (b : Bytes)
      → Silent ms
      → Heard s b
      → ((write_each end now ms s).1 ≡ true) × Heard (write_each end now ms s).0 b
  unfolding write_each
  write_each-Heard now [] s b q h = (refl, h)
  write_each-Heard now (m ∷ ms) s b q h =
      let (d, e) = hears now m [] s b h q.0 in
      rw d (
        write_each-Heard now ms (end.write_all now m s).0 b q.1
          (subst (λ v. Heard (end.write_all now m s).0 v) (append-nil b) e))

  module _ (fl : Float64) where
    open fl use {F}

    send_cells-Heard :
        (now : ℕ) (cells : List Cell) (s : S) (b : Bytes)
        → Heard s b
        → ((send_cells fl end now cells s).delivered ≡ true)
          × Heard (send_cells fl end now cells s).sink (b ++ payload cells)
    unfolding send_cells
    send_cells-Heard now [] s b h = (refl, subst (λ v. Heard s v) (sym (append-nil b)) h)
    send_cells-Heard now (x ∷ cells) s b h =
        let (d, e) =
          hears (max now x.due) (escape x.bytes) x.bytes s b h (Carries-escape x.bytes) in
        let (d', e') =
          send_cells-Heard (end.done_at (max now x.due) (escape x.bytes) s) cells
            (end.write_all (max now x.due) (escape x.bytes) s).0 (b ++ x.bytes) e in
        rw d (d', rw (← append_assoc b x.bytes (payload cells)) e')

    module _ (from_termios : LineModes → PortSettings) where
      relayed-Silent : (o : Observed) (last : PortSettings) → Silent (relayed from_termios o last).1
      unfolding relayed
      relayed-Silent o last = elim (Bool-cases o.com_ok) [
        | inr off ↦ rw off tt
        | inl on ↦ elim (Option-cases o.termios) [
          | inl gone ↦ rw (on, gone) tt
          | inr (tio, e) ↦ elim (Bool-cases (settings_eq (from_termios tio) last)) [
            | inl still ↦ rw (on, e, still) tt
            | inr moved ↦ rw (on, e, moved) (Silent-commands_to last (from_termios tio))
          ]
        ]
      ]

      -- A session that is up, its wire clean, its socket told `b` so far.
      pub record IsUp (u : Uplink F S) (b : Bytes) : Type 0 where
        pub up : u.leg.going ≡ true
        pub clean : IsClean fl u.leg.wire
        pub heard : Heard u.leg.sink b

      sync_settings-Heard :
          (now : ℕ) (o : Observed) (last : PortSettings) (s : S) (b : Bytes)
          → Heard s b
          → let (last', (s', there)) = sync_settings from_termios end now o last s in
            (there ≡ true) × Heard s' b
      unfolding sync_settings
      sync_settings-Heard now o last s b c =
          write_each-Heard now (relayed from_termios o last).1 s b (relayed-Silent o last) c

      send_read-IsUp :
          (u : Uplink F S) (o : Observed) (bytes b : Bytes)
          → IsUp u b
          → IsUp (send_read from_termios fl end u o bytes) (b ++ bytes)
      unfolding send_read
      send_read-IsUp u o bytes b h =
          let l = u.leg in
          let s = sync_settings from_termios end l.clock o u.last l.sink in
          let (there, c) = sync_settings-Heard l.clock o u.last l.sink b h.heard in
          let cells = (plan fl l.clock l.wire bytes).1 in
          let (d, e) = send_cells-Heard l.clock cells s.1.0 b c in
          rw there record {
            up = d;
            clean = plan-IsClean fl l.clock l.wire bytes h.clean;
            heard =
                subst (λ v. Heard (send_cells fl end l.clock cells s.1.0).sink (b ++ v))
                  (plan-payload_clean fl l.clock l.wire bytes h.clean) e;
          }

      still-IsUp :
          (u v : Uplink F S) (b : Bytes)
          → v.leg.going ≡ u.leg.going
          → v.leg.wire ≡ u.leg.wire
          → v.leg.sink ≡ u.leg.sink
          → IsUp u b
          → IsUp v (b ++ [])
      still-IsUp u v b g w s h = record {
        up = g ∙ h.up;
        clean = rw w h.clean;
        heard = rw (append-nil b, s) h.heard;
      }

      uplink_round-IsUp :
          (u : Uplink F S) (e : UpEvent) (b : Bytes)
          → IsUp u b
          → IsUp (uplink_round from_termios fl end u e) (b ++ event_bytes e)
      unfolding uplink_round poll
      uplink_round-IsUp u (port_read no_consumer o) b h = still-IsUp u _ b refl refl refl h
      uplink_round-IsUp u (port_read (got bytes) o) b h = send_read-IsUp u o bytes b h
      uplink_round-IsUp u (port_read read_failed o) b h = still-IsUp u _ b refl refl refl h
      uplink_round-IsUp u (tick o) b h =
          let (there, c) = sync_settings-Heard u.leg.clock o u.last u.leg.sink b h.heard in
          record { up = there; clean = h.clean; heard = rw (append-nil b) c }

      uplink_loop-step :
          (u : Uplink F S) (e : UpEvent) (es : List UpEvent)
          → u.leg.going ≡ true
          → uplink_loop from_termios fl end u (e ∷ es)
            ≡ uplink_loop from_termios fl end (uplink_round from_termios fl end u e) es
      unfolding uplink_loop
      uplink_loop-step u e es h = λ i.
          if h i
          then uplink_loop from_termios fl end (uplink_round from_termios fl end u e) es
          else u

      pub uplink_loop-IsUp :
          (u : Uplink F S) (es : List UpEvent) (b : Bytes)
          → IsUp u b
          → IsUp (uplink_loop from_termios fl end u es) (b ++ port_bytes es)
      unfolding uplink_loop
      uplink_loop-IsUp u [] b h = rw (append-nil b) h
      uplink_loop-IsUp u (e ∷ es) b h =
          subst (λ v. IsUp v (b ++ port_bytes (e ∷ es))) (sym (uplink_loop-step u e es h.up))
            (rw (← append_assoc b (event_bytes e) (port_bytes es)) (
              uplink_loop-IsUp (uplink_round from_termios fl end u e) es (b ++ event_bytes e)
                (uplink_round-IsUp u e b h)))
