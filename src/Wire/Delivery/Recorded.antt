-- ===== src/Wire/Delivery/Recorded.antt =====
-- What an end that takes every write sees of a plan.
use ttyforge.Common.{
  Bytes, ℕ, ◌+◌, ◌*◌, ◌^◌, ◌≤◌, ◌<◌, max, ◌≡◌, refl, ap, ◌∙◌, true, List, [], ◌∷◌, ◌++◌, append-nil,
  append_assoc, arith,
}
use ttyforge.Wire.Float.{Float64}
use ttyforge.Wire.Plan.{Cell, Wire, transform, jitter_sample, plan}
use ttyforge.Wire.Plan.Payload.{payload, plan-transform, plan-keeps_noise}
use ttyforge.Wire.Plan.Schedule.{InOrder, InOrder-earlier, plan-InOrder}
use ttyforge.Wire.Delivery.{
  Sink, Read, no_consumer, got, read_failed, Pump, ms, deliver_cells, deliver, pump_round, pump,
}

-- An end that accepts every write and remembers when each came.
abbrev pub recorder : Sink (List Cell)
recorder = record {
  write_all = λ at bytes log. (log ++ record { bytes = bytes; due = at } ∷ [], true);
  done_at = λ at bytes log. at;
}

-- The cells as they are written by a clock that starts at `now`.
abbrev pub stamped : ℕ → List Cell → List Cell
stamped now [] = []
stamped now (c ∷ cells) =
    record { bytes = c.bytes; due = max now c.due } ∷ stamped (max now c.due) cells

abbrev pub stamped_clock : ℕ → List Cell → ℕ
stamped_clock now [] = now
stamped_clock now (c ∷ cells) = stamped_clock (max now c.due) cells

pub deliver_cells-recorder :
    (now : ℕ) (cells log : List Cell)
    → deliver_cells recorder now cells log ≡ record {
      sink = log ++ stamped now cells;
      clock = stamped_clock now cells;
      delivered = true;
    }
unfolding deliver_cells
deliver_cells-recorder now [] log = rw append-nil
deliver_cells-recorder now (c ∷ cells) log =
    deliver_cells-recorder (max now c.due) cells _ ∙ rw append_assoc

stamped-InOrder :
    (now hi : ℕ) (cells : List Cell) → InOrder now hi cells → stamped now cells ≡ cells
stamped-InOrder now hi [] o = refl
stamped-InOrder now hi (c ∷ cells) o =
    let e : max now c.due ≡ c.due = omega arith in
    rw e (ap (◌∷◌ c) (stamped-InOrder c.due hi cells o.1))

pub payload-stamped : (now : ℕ) (cells : List Cell) → payload (stamped now cells) ≡ payload cells
payload-stamped now [] = refl
payload-stamped now (c ∷ cells) = ap (◌++◌ c.bytes) (payload-stamped (max now c.due) cells)

pub payload-append : (xs ys : List Cell) → payload (xs ++ ys) ≡ payload xs ++ payload ys
payload-append [] ys = refl
payload-append (c ∷ xs) ys = rw (payload-append xs ys, append_assoc)

module _ (fl : Float64) where
  open fl use {F, zero_f, eq_f, eq_zero}

  -- With a jitter below 2^52 ns, an end that takes every write gets exactly the planned cells,
  -- each at the instant it is due.
  pub deliver_on_schedule :
      (now : ℕ) (w : Wire F) (bytes : Bytes) (log : List Cell)
      → w.jitter < 2 ^ 52
      → let (w', cells) = plan fl now w bytes in
        let (v, sent) = deliver fl recorder now w bytes log in
        (v ≡ w') × (sent.sink ≡ log ++ cells) × (sent.delivered ≡ true)
  unfolding deliver
  deliver_on_schedule now w bytes log h =
      let (w', cells) = plan fl now w bytes in
      let ordered = stamped-InOrder now _ cells (
        InOrder-earlier now (max w.cursor now + w.latency) _ cells (omega arith)
          (plan-InOrder fl now w bytes h)) in
      rw (deliver_cells-recorder, ordered) (refl, refl, refl)

  -- The bytes that the reads gave.
  abbrev pub read_bytes : List Read → Bytes
  read_bytes [] = []
  read_bytes (got bytes ∷ rs) = bytes ++ read_bytes rs
  read_bytes (r ∷ rs) = read_bytes rs

  -- Those of reads with their instants.
  abbrev pub came_bytes : List (ℕ × Read) → Bytes
  came_bytes [] = []
  came_bytes ((t, got bytes) ∷ rs) = bytes ++ came_bytes rs
  came_bytes ((t, r) ∷ rs) = came_bytes rs

  -- What a lossless, clean wire needs for `pump` to hand every byte on.
  pub record IsClean (w : Wire F) : Type 0 where
    pub no_drop : w.drop_p ≡ zero_f
    pub no_corrupt : w.corrupt_p ≡ zero_f
    pub cells_nonempty : 1 ≤ w.cell_bytes

  pub plan-IsClean :
      (now : ℕ) (w : Wire F) (bytes : Bytes) → IsClean w → IsClean (plan fl now w bytes).0
  plan-IsClean now w bytes h =
      let (d, c, b) = plan-keeps_noise fl now w bytes in
      record {
        no_drop = d ∙ h.no_drop;
        no_corrupt = c ∙ h.no_corrupt;
        cells_nonempty = rw b h.cells_nonempty;
      }

  transform_clean :
      (d c : F) (x : ℕ) (bytes : Bytes)
      → d ≡ zero_f
      → c ≡ zero_f
      → transform fl d c x bytes ≡ (x, bytes)
  unfolding transform
  transform_clean d c x bytes hd hc = ground (arith, eq_zero)

  pub plan-payload_clean :
      (now : ℕ) (w : Wire F) (bytes : Bytes) → IsClean w → payload (plan fl now w bytes).1 ≡ bytes
  plan-payload_clean now w bytes h = ground (
    arith,
    plan-transform fl now w bytes h.cells_nonempty,
    transform_clean w.drop_p w.corrupt_p (jitter_sample fl w).0 bytes h.no_drop h.no_corrupt,
  )

  -- A delivery over a lossless, clean wire: what the far end has, and the wire behind it.
  pub deliver-IsClean :
      (now : ℕ) (w : Wire F) (bytes : Bytes) (log : List Cell)
      → IsClean w
      → let (w', sent) = deliver fl recorder now w bytes log in
        IsClean w' × (sent.delivered ≡ true) × (payload sent.sink ≡ payload log ++ bytes)
  unfolding deliver
  deliver-IsClean now w bytes log h =
      let cells = (plan fl now w bytes).1 in
      (
        plan-IsClean now w bytes h,
        ap (λ s. s.delivered) (deliver_cells-recorder now cells log),
        ap (λ s. payload (s.sink)) (deliver_cells-recorder now cells log)
            ∙ payload-append log (stamped now cells)
            ∙ ap (λ b. payload log ++ b)
                (payload-stamped now cells ∙ plan-payload_clean now w bytes h),
      )

  -- What a read leaves of the cable.
  abbrev after_read : Pump F (List Cell) → Bytes → Pump F (List Cell)
  after_read p bytes =
      let (w', cells) = plan fl p.clock p.wire bytes in
      record {
        wire = w';
        clock = stamped_clock p.clock cells;
        sink = p.sink ++ stamped p.clock cells;
      }

  pump_round-got :
      (p : Pump F (List Cell)) (bytes : Bytes)
      → pump_round fl recorder p (got bytes) ≡ after_read p bytes
  unfolding pump_round deliver
  pump_round-got p bytes =
      let (w', cells) = plan fl p.clock p.wire bytes in
      cc (deliver_cells-recorder p.clock cells p.sink)

  -- Over a lossless, clean wire, whatever its rate, latency and jitter, and with no write refused,
  -- the far end of a cable has received the bytes that were read, all of them and in order, however
  -- and whenever the reads came.
  pub pump_transparent :
      (p : Pump F (List Cell)) (rs : List (ℕ × Read))
      → IsClean p.wire
      → payload (pump fl recorder p rs).sink ≡ payload p.sink ++ came_bytes rs
  unfolding pump pump_round
  pump_transparent p [] h = rw append-nil
  pump_transparent p ((t, no_consumer) ∷ rs) h =
      pump_transparent (record p { clock = max p.clock t + 50 * ms }) rs h
  pump_transparent p ((t, got bytes) ∷ rs) h =
      let p' = record p { clock = max p.clock t } in
      let cells = (plan fl p'.clock p.wire bytes).1 in
      ap (λ q. payload (pump fl recorder q rs).sink) (pump_round-got p' bytes)
      ∙ pump_transparent (after_read p' bytes) rs (plan-IsClean p'.clock p.wire bytes h)
      ∙ rw
          (
            payload-append p.sink (stamped p'.clock cells),
            payload-stamped p'.clock cells,
            plan-payload_clean p'.clock p.wire bytes h,
          )
          (append_assoc (payload p.sink) bytes (came_bytes rs))
  pump_transparent p ((t, read_failed) ∷ rs) h =
      pump_transparent (record p { clock = max p.clock t + 100 * ms }) rs h
