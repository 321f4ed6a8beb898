-- ===== src/Bridge/Turns/Legs.antt =====
-- The directions of `run_session` of src/forge/bridge.rs.
use ttyforge.Wire.Plan.{Cell, plan}
use ttyforge.Common.{
  if◌then◌else◌, Bytes, flatten-snoc, ℕ, ◌+◌, ◌*◌, max, ◌≡◌, refl, sym, ap, ◌∙◌, Bool, true, false,
  List, [], ◌∷◌, ◌++◌, append-nil, append_assoc,
}
use ttyforge.Wire.Float.{Float64}
use ttyforge.Wire.Plan.Payload.{payload}
use ttyforge.Wire.Delivery.{
  Read, no_consumer, got, read_failed, ms, deliver_cells, deliver, deliver_to,
}
use ttyforge.Wire.Delivery.Recorded.{
  recorder, read_bytes, IsClean, plan-IsClean, plan-payload_clean, deliver-IsClean,
}
use ttyforge.Bridge.Session.{
  PeerRead, closed, received, peer_failed, Leg, up_round, down_round, up_loop, down_loop,
}
use ttyforge.Bridge.Session.Inbound.{message_log, peer_bytes}
use mathlib.Core.List.{flatten}

deliver_cells-message_log :
    (now : ℕ) (cells : List Cell) (ms : List Bytes)
    → let sent = deliver_cells message_log now cells ms in
      (sent.delivered ≡ true) × (flatten sent.sink ≡ flatten ms ++ payload cells)
unfolding deliver_cells flatten
deliver_cells-message_log now [] ms = (refl, sym (append-nil (flatten ms)))
deliver_cells-message_log now (c ∷ cells) ms =
    let (d, e) = deliver_cells-message_log (max now c.due) cells (ms ++ c.bytes ∷ []) in
    (d, e ∙ rw (flatten-snoc ms c.bytes) (append_assoc (flatten ms) c.bytes (payload cells)))

module _ (fl : Float64) where
  open fl use {F}

  -- A direction that is up, its wire clean.
  pub record IsRaw {S : Type 0} (l : Leg F S) : Type 0 where
    pub up : l.going ≡ true
    pub clean : IsClean fl l.wire

  module _ (flush : List Bytes → List Bytes × Bool)
      (flushes : (s : List Bytes) → flush s ≡ (s, true)) where
    up_round-got :
        (l : Leg F (List Bytes)) (bytes : Bytes)
        → IsRaw l
        → let l' = up_round fl message_log flush l (got bytes) in
          IsRaw l' × (flatten l'.sink ≡ flatten l.sink ++ bytes)
    unfolding up_round deliver_to deliver
    up_round-got l bytes h =
        let cells = (plan fl l.clock l.wire bytes).1 in
        let (d, e) = deliver_cells-message_log l.clock cells l.sink in
        rw (d, flushes (deliver_cells message_log l.clock cells l.sink).sink)
          (
            record { up = refl; clean = plan-IsClean fl l.clock l.wire bytes h.clean },
            e ∙ ap (λ b. flatten l.sink ++ b) (plan-payload_clean fl l.clock l.wire bytes h.clean),
          )

    -- A loop that is up takes the next read.
    up_loop-step :
        (l : Leg F (List Bytes)) (r : Read) (rs : List Read)
        → l.going ≡ true
        → up_loop fl message_log flush l (r ∷ rs)
          ≡ up_loop fl message_log flush (up_round fl message_log flush l r) rs
    unfolding up_loop
    up_loop-step l r rs h =
        λ i. if h i then up_loop fl message_log flush (up_round fl message_log flush l r) rs else l

    pub up_loop-read_bytes :
        (rs : List Read) (l : Leg F (List Bytes))
        → IsRaw l
        → flatten (up_loop fl message_log flush l rs).sink ≡ flatten l.sink ++ read_bytes fl rs
    unfolding up_loop up_round
    up_loop-read_bytes [] l h = sym (append-nil (flatten l.sink))
    up_loop-read_bytes (no_consumer ∷ rs) l h =
        ap (λ q. flatten (q.sink)) (up_loop-step l no_consumer rs h.up)
        ∙ up_loop-read_bytes rs (record l { clock = l.clock + 50 * ms })
            record { up = h.up; clean = h.clean }
    up_loop-read_bytes (read_failed ∷ rs) l h =
        ap (λ q. flatten (q.sink)) (up_loop-step l read_failed rs h.up)
        ∙ up_loop-read_bytes rs (record l { clock = l.clock + 100 * ms })
            record { up = h.up; clean = h.clean }
    up_loop-read_bytes (got bytes ∷ rs) l h =
        let (k, e) = up_round-got l bytes h in
        ap (λ q. flatten (q.sink)) (up_loop-step l (got bytes) rs h.up)
        ∙ up_loop-read_bytes rs (up_round fl message_log flush l (got bytes)) k
        ∙ ap (λ b. b ++ read_bytes fl rs) e
        ∙ append_assoc (flatten l.sink) bytes (read_bytes fl rs)

  down_loop-step :
      (l : Leg F (List Cell)) (r : PeerRead) (rs : List PeerRead)
      → l.going ≡ true
      → down_loop fl recorder l (r ∷ rs) ≡ down_loop fl recorder (down_round fl recorder l r) rs
  unfolding down_loop
  down_loop-step l r rs h =
      λ i. if h i then down_loop fl recorder (down_round fl recorder l r) rs else l

  down_loop_over :
      (l : Leg F (List Cell)) (rs : List PeerRead)
      → l.going ≡ false
      → down_loop fl recorder l rs ≡ l
  unfolding down_loop
  down_loop_over l [] h = refl
  down_loop_over l (r ∷ rs) h =
      λ i. if h i then down_loop fl recorder (down_round fl recorder l r) rs else l

  -- A read that ends the loop.
  down_loop_ends :
      (l : Leg F (List Cell)) (r : PeerRead) (rs : List PeerRead)
      → l.going ≡ true
      → down_round fl recorder l r ≡ record l { going = false }
      → payload (down_loop fl recorder l (r ∷ rs)).sink ≡ payload l.sink ++ []
  down_loop_ends l r rs h e =
      ap (λ q. payload (q.sink))
        (down_loop-step l r rs h
          ∙ ap (λ q. down_loop fl recorder q rs) e
          ∙ down_loop_over (record l { going = false }) rs refl)
      ∙ sym (append-nil (payload l.sink))

  pub down_loop-peer_bytes :
      (rs : List PeerRead) (l : Leg F (List Cell))
      → IsRaw l
      → payload (down_loop fl recorder l rs).sink ≡ payload l.sink ++ peer_bytes rs
  unfolding down_loop down_round
  down_loop-peer_bytes [] l h = sym (append-nil (payload l.sink))
  down_loop-peer_bytes (received bytes ∷ rs) l h =
      let (c, d, e) = deliver-IsClean fl l.clock l.wire bytes l.sink h.clean in
      ap (λ q. payload (q.sink)) (down_loop-step l (received bytes) rs h.up)
      ∙ down_loop-peer_bytes rs (down_round fl recorder l (received bytes))
          record { up = d; clean = c }
      ∙ ap (λ b. b ++ peer_bytes rs) e
      ∙ append_assoc (payload l.sink) bytes (peer_bytes rs)
  down_loop-peer_bytes (closed ∷ rs) l h = down_loop_ends l closed rs h.up refl
  down_loop-peer_bytes (peer_failed ∷ rs) l h = down_loop_ends l peer_failed rs h.up refl
