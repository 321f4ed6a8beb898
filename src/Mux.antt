-- ===== src/Mux.antt =====
-- The four loops of src/forge/mux.rs. The channels between them are tokio's: what a `recv` gives is
-- an argument.
pub mod Fanout
pub mod Channels
pub mod System
use ttyforge.Common.{if◌then◌else◌, Bytes, ℕ, ◌+◌, ◌*◌, Bool, List, [], ◌∷◌}
use ttyforge.Wire.Float.{Float64}
use ttyforge.Wire.Plan.{Wire}
use ttyforge.Wire.Delivery.{Sink, Read, no_consumer, got, read_failed, Pump, ms, deliver}

-- What `recv` of the broadcast channel gives.
pub data Recv : Type 0 where
  chunk : Bytes → Recv
  lagged : ℕ → Recv
  closed : Recv

-- `device_reader`: the chunks published, in order, and the nanoseconds slept.
unfoldable pub device_reader : List Read → List Bytes × ℕ
device_reader [] = ([], 0)
device_reader (no_consumer ∷ rs) = let (sent, slept) = device_reader rs in (sent, 50 * ms + slept)
device_reader (got bytes ∷ rs) = let (sent, slept) = device_reader rs in (bytes ∷ sent, slept)
device_reader (read_failed ∷ rs) = let (sent, slept) = device_reader rs in (sent, 100 * ms + slept)

-- `device_writer`: one write for each chunk, in the order of their arrival; a write that fails is
-- not tried again.
unfoldable pub device_writer : {S : Type 0} → Sink S → ℕ → List Bytes → S → S × ℕ
device_writer k now [] s = (s, now)
device_writer k now (c ∷ chunks) s =
    let (s', done) = k.write_all now c s in
    device_writer k (if done then now else now + 100 * ms) chunks s'

-- Where `from_consumer` stands: its wire, its clock, the device's queue, and whether the device's
-- writer was there at the last send.
pub record Upstream (F S : Type 0) : Type 0 where
  pub wire : Wire F
  pub clock : ℕ
  pub queue : S
  pub alive : Bool

module _ (fl : Float64) where
  open fl use {F}

  module _ {S : Type 0} (k : Sink S) where
    -- A round of `to_consumer`, and its loop up to the end of the channel.
    unfoldable pub consumer_round : Pump F S → Bytes → Pump F S
    unfolding deliver
    consumer_round p bytes =
        let (w', sent) = deliver fl k p.clock p.wire bytes p.sink in
        record {
          wire = w';
          clock = if sent.delivered then sent.clock else sent.clock + 100 * ms;
          sink = sent.sink;
        }

    unfoldable pub to_consumer : Pump F S → List Recv → Pump F S
    unfolding consumer_round
    to_consumer p [] = p
    to_consumer p (chunk bytes ∷ rs) = to_consumer (consumer_round p bytes) rs
    to_consumer p (lagged n ∷ rs) = to_consumer p rs
    to_consumer p (closed ∷ rs) = p

    -- A round of `from_consumer`: each cell is sent to the queue at its instant, and a send that
    -- fails returns.
    unfoldable pub consumer_read : Upstream F S → Read → Upstream F S
    unfolding deliver
    consumer_read u no_consumer = record u { clock = u.clock + 50 * ms }
    consumer_read u (got bytes) =
        let (w', sent) = deliver fl k u.clock u.wire bytes u.queue in
        record { wire = w'; clock = sent.clock; queue = sent.sink; alive = sent.delivered }
    consumer_read u read_failed = record u { clock = u.clock + 100 * ms }

    unfoldable pub from_consumer : Upstream F S → List Read → Upstream F S
    unfolding consumer_read
    from_consumer u [] = u
    from_consumer u (r ∷ rs) =
        let next = from_consumer (consumer_read u r) rs in if u.alive then next else u
