-- ===== src/Wire/Delivery.antt =====
-- Carrying a plan out: `deliver`, `deliver_to` and `pump` of src/forge/wire.rs, over any end that
-- takes writes. Sleeping moves the clock, and so does a write, by what it waits for room and its timer
-- was late; a read of `pump` comes at an instant of its own.
pub mod Recorded
pub mod Clean
pub mod Delay
pub mod Throughput
use ttyforge.Common.{if◌then◌else◌, Bytes, ℕ, ◌+◌, ◌*◌, max, Bool, true, false, List, [], ◌∷◌}
use ttyforge.Wire.Float.{Float64}
use ttyforge.Wire.Plan.{Cell, Wire, plan}

-- The end written to: its state, a write at an instant, which may fail, and the instant at which that
-- write is over.
pub record Sink (S : Type 0) : Type 0 where
  pub write_all : ℕ → Bytes → S → S × Bool
  pub done_at : ℕ → Bytes → S → ℕ

pub record Sent (S : Type 0) : Type 0 where
  pub sink : S
  pub clock : ℕ
  pub delivered : Bool

-- What a read of the port gives: no consumer, bytes, or an error.
pub data Read : Type 0 where
  no_consumer : Read
  got : Bytes → Read
  read_failed : Read

-- One direction of a cable.
pub record Pump (F S : Type 0) : Type 0 where
  pub wire : Wire F
  pub clock : ℕ
  pub sink : S

-- A millisecond in nanoseconds.
abbrev pub ms : ℕ
ms = 1_000_000

module _ {S : Type 0} (k : Sink S) where
  -- `for cell in cells { sleep_until(cell.due); write_all(&cell.data)?; }`
  unfoldable pub deliver_cells : ℕ → List Cell → S → Sent S
  deliver_cells now [] s = record { sink = s; clock = now; delivered = true }
  deliver_cells now (c ∷ cells) s =
      let at = max now c.due in
      let (s', done) = k.write_all at c.bytes s in
      let over = k.done_at at c.bytes s in
      let rest = deliver_cells over cells s' in
      if done then rest else record { sink = s'; clock = over; delivered = false }

module _ (fl : Float64) {S : Type 0} (k : Sink S) where
  open fl use {F}

  unfoldable pub deliver : ℕ → Wire F → Bytes → S → Wire F × Sent S
  unfolding deliver_cells
  deliver now w bytes s = let (w', cells) = plan fl now w bytes in (w', deliver_cells k now cells s)

  -- `deliver_to`, with the sink's `flush` behind the last cell.
  unfoldable pub deliver_to : (S → S × Bool) → ℕ → Wire F → Bytes → S → Wire F × Sent S
  unfolding deliver
  deliver_to flush now w bytes s =
      let (w', sent) = deliver now w bytes s in
      let (s', done) = flush sent.sink in
      (w', if sent.delivered then record sent { sink = s'; delivered = done } else sent)

  -- One round of `pump`'s loop. A failed write abandons the rest of the chunk's cells.
  unfoldable pub pump_round : Pump F S → Read → Pump F S
  unfolding deliver
  pump_round p no_consumer = record p { clock = p.clock + 50 * ms }
  pump_round p (got bytes) =
      let (w', sent) = deliver p.clock p.wire bytes p.sink in
      record {
        wire = w';
        clock = if sent.delivered then sent.clock else sent.clock + 100 * ms;
        sink = sent.sink;
      }
  pump_round p read_failed = record p { clock = p.clock + 100 * ms }

  -- The loop over the results of the reads, in order, each with the instant at which it comes, unless
  -- the loop is not back by then.
  unfoldable pub pump : Pump F S → List (ℕ × Read) → Pump F S
  unfolding pump_round
  pump p [] = p
  pump p ((t, r) ∷ rs) = pump (pump_round (record p { clock = max p.clock t }) r) rs
