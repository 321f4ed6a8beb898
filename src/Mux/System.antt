-- ===== src/Mux/System.antt =====
-- The tasks that `run` of src/forge/mux.rs starts, in any order of their steps: `device_reader` and
-- `device_writer`, and `to_consumer` and `from_consumer` for each port, over the two channels.
pub mod Copies
pub mod Merged
use ttyforge.Common.{Bytes, ℕ, ◌+◌, ◌<◌, ◌≡◌, some, List, [], ◌∷◌, ◌++◌}
use ttyforge.Common.Family.{update}
use ttyforge.Wire.Float.{Float64}
use ttyforge.Wire.Plan.{Cell, Wire, plan}
use ttyforge.Wire.Delivery.{Read, Pump}
use ttyforge.Wire.Delivery.Recorded.{recorder}
use ttyforge.Mux.{chunk, lagged, device_reader, device_writer, to_consumer}
use ttyforge.Mux.Channels.{backlog, tx_queue, Broadcast, Mpsc}

-- What the cells of a plan carry.
abbrev pub chunks_of : List Cell → List Bytes
chunks_of [] = []
chunks_of (c ∷ cells) = c.bytes ∷ chunks_of cells

-- The way back of a port: its wire, the bytes read from the port, and the cells of the last read that
-- are still to be sent.
pub record Typing (F : Type 0) : Type 0 where
  pub back : Wire F
  pub typed : Bytes
  pub outbox : List Bytes

module _ (fl : Float64) (bc : Broadcast backlog) (mp : Mpsc tx_queue) where
  open fl use {F}
  open bc use {Channel, fresh, send, recv}
  open mp use {Queue, empty, push, pop}

  unfoldable pub publish : List Bytes → Channel → Channel
  publish [] c = c
  publish (b ∷ bs) c = publish bs (send b c)

  -- The channels, the ports and the device. `read` has the reads published so far; each port has its
  -- pump, the number of reads that it was told it lost, and its way back. `arrived` has what was sent
  -- to the device, with the number of the port that it came from.
  pub record Mux : Type 0 where
    pub channel : Channel
    pub read : List Bytes
    pub ports : ℕ → Pump F (List Cell)
    pub lost : ℕ → ℕ
    pub typing : ℕ → Typing F
    pub queue : Queue
    pub arrived : List (ℕ × Bytes)
    pub device : List Cell

  -- The tasks as they are started, with the wires of `build_pair_nth`.
  unfoldable pub started : ℕ → (ℕ → Wire F × Wire F) → Mux
  started now wires = record {
    channel = fresh;
    read = [];
    ports = λ i. record { wire = (wires i).0; clock = now; sink = [] };
    lost = λ i. 0;
    typing = λ i. record { back = (wires i).1; typed = []; outbox = [] };
    queue = empty;
    arrived = [];
    device = [];
  }

  -- A read of a port, when all cells of the one before are sent.
  unfoldable pub typed_at : ℕ → Typing F → Bytes → Typing F
  typed_at now t b =
      let (w, cells) = plan fl now t.back b in
      record { back = w; typed = t.typed ++ b; outbox = chunks_of cells }

  -- A step of one task. A port takes every write, and so does the device.
  pub data Step (n : ℕ) (m : Mux) : Mux → Type 0 where
    -- `device_reader`
    reads :
        (r : Read)
        → Step n m (record m {
          channel = publish (device_reader (r ∷ [])).0 m.channel;
          read = m.read ++ (device_reader (r ∷ [])).0;
        })
    -- `to_consumer`, at a chunk and at a lag
    takes :
        (i now : ℕ) (b : Bytes) (c : Channel)
        → i < n
        → recv i m.channel ≡ some (chunk b, c)
        → Step n m (record m {
          channel = c;
          ports =
              update m.ports i
                (to_consumer fl recorder (record (m.ports i) { clock = now }) (chunk b ∷ []));
        })
    lags :
        (i k : ℕ) (c : Channel)
        → i < n
        → recv i m.channel ≡ some (lagged k, c)
        → Step n m (record m { channel = c; lost = update m.lost i (m.lost i + k) })
    -- `from_consumer`, at a read, which comes when the last one's cells are sent, and at a send
    types :
        (i now : ℕ) (b : Bytes)
        → i < n
        → (m.typing i).outbox ≡ []
        → Step n m (record m { typing = update m.typing i (typed_at now (m.typing i) b) })
    sends :
        (i : ℕ) (b : Bytes) (bs : List Bytes) (q : Queue)
        → i < n
        → (m.typing i).outbox ≡ b ∷ bs
        → push b m.queue ≡ some q
        → Step n m (record m {
          typing = update m.typing i (record (m.typing i) { outbox = bs });
          queue = q;
          arrived = m.arrived ++ (i, b) ∷ [];
        })
    -- `device_writer`
    writes :
        (now : ℕ) (b : Bytes) (q : Queue)
        → pop m.queue ≡ some (b, q)
        → Step n m
            (record m { queue = q; device = (device_writer recorder now (b ∷ []) m.device).0 })

  pub data Reach (n now : ℕ) (wires : ℕ → Wire F × Wire F) : Mux → Type 0 where
    start : Reach n now wires (started now wires)
    later : {m m' : Mux} → Reach n now wires m → Step n m m' → Reach n now wires m'
