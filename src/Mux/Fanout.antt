-- ===== src/Mux/Fanout.antt =====
-- What the consumers of a device receive, and what the device receives of them.
use ttyforge.Common.{Bytes, ℕ, max, ◌≡◌, refl, ap, ◌∙◌, List, [], ◌∷◌, ◌++◌, arith}
use ttyforge.Wire.Float.{Float64}
use ttyforge.Wire.Plan.{Cell}
use ttyforge.Wire.Plan.Payload.{payload}
use ttyforge.Wire.Delivery.{Sink, Read, no_consumer, got, read_failed, Pump, pump_round, pump}
use ttyforge.Wire.Delivery.Recorded.{recorder, read_bytes, came_bytes, IsClean, pump_transparent}
use ttyforge.Mux.{Recv, chunk, lagged, closed, device_reader, consumer_round, to_consumer}
use mathlib.Core.List.{flatten}

-- The chunks that a consumer takes before its channel ends.
abbrev pub taken : List Recv → List Bytes
taken [] = []
taken (chunk bytes ∷ rs) = bytes ∷ taken rs
taken (lagged n ∷ rs) = taken rs
taken (closed ∷ rs) = []

abbrev as_reads : List Bytes → List (ℕ × Read)
as_reads [] = []
as_reads (c ∷ cs) = (0, got c) ∷ as_reads cs

came_bytes-as_reads : (fl : Float64) (cs : List Bytes) → came_bytes fl (as_reads cs) ≡ flatten cs
unfolding flatten
came_bytes-as_reads fl [] = refl
came_bytes-as_reads fl (c ∷ cs) = ap (λ r. c ++ r) (came_bytes-as_reads fl cs)

flatten-device_reader :
    (fl : Float64) (rs : List Read) → flatten (device_reader rs).0 ≡ read_bytes fl rs
unfolding device_reader flatten
flatten-device_reader fl [] = refl
flatten-device_reader fl (no_consumer ∷ rs) = flatten-device_reader fl rs
flatten-device_reader fl (got bytes ∷ rs) = ap (λ r. bytes ++ r) (flatten-device_reader fl rs)
flatten-device_reader fl (read_failed ∷ rs) = flatten-device_reader fl rs

module _ (fl : Float64) where
  open fl use {F}

  -- A consumer's loop is the pump of the chunks it takes.
  to_consumer-pump :
      {S : Type 0} (k : Sink S) (p : Pump F S) (rs : List Recv)
      → to_consumer fl k p rs ≡ pump fl k p (as_reads (taken rs))
  unfolding to_consumer consumer_round pump pump_round
  to_consumer-pump k p [] = refl
  to_consumer-pump k p (chunk bytes ∷ rs) =
      let now : p.clock ≡ max p.clock 0 = omega arith in
      to_consumer-pump k (consumer_round fl k p bytes) rs
      ∙ ap
          (λ n.
            pump fl k (pump_round fl k (record p { clock = n }) (got bytes)) (as_reads (taken rs)))
          now
  to_consumer-pump k p (lagged n ∷ rs) = to_consumer-pump k p rs
  to_consumer-pump k p (closed ∷ rs) = refl

  -- A consumer that takes every chunk the device's reader publishes, over a lossless, clean wire
  -- and a port that accepts every write, receives the bytes that were read from the device, all
  -- of them and in order.
  pub fan_out :
      (p : Pump F (List Cell)) (reads : List Read) (rs : List Recv)
      → IsClean fl p.wire
      → taken rs ≡ (device_reader reads).0
      → payload (to_consumer fl recorder p rs).sink ≡ payload p.sink ++ read_bytes fl reads
  fan_out p reads rs clean all =
      ap (λ q. payload (q.sink)) (to_consumer-pump recorder p rs)
      ∙ pump_transparent fl p (as_reads (taken rs)) clean
      ∙ ap (λ r. payload p.sink ++ r)
          (came_bytes-as_reads fl (taken rs) ∙ ap flatten all ∙ flatten-device_reader fl reads)
