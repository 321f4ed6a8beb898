-- ===== src/Examples/Wires.antt =====
-- Wires at 115200 baud with two-byte cells, on fixed-point numbers.
use ttyforge.Common.{
  leb, Bytes, length, ℕ, ◌+◌, ◌*◌, ◌≤◌, ◌≡◌, refl, Bool, none, some, List, [], ◌∷◌, ◌++◌, arith,
}
use ttyforge.Wire.Float.{scaled}
use ttyforge.Wire.Plan.{WireSpec, Cell, Wire, transform, plan}
use ttyforge.Wire.Plan.Noise.{Noisy, transform-Noisy}
use ttyforge.Wire.Plan.Payload.{payload, plan-payload-append}
use ttyforge.Wire.Plan.Schedule.{InOrder, IsValid, plan-InOrder_twice}
use ttyforge.Wire.Delivery.{Read, no_consumer, got, read_failed, Pump, pump}
use ttyforge.Wire.Delivery.Recorded.{recorder, IsClean, pump_transparent}
use ttyforge.Wire.Delivery.Throughput.{attempts, written_by, pump_throughput}
use ttyforge.Wire.Delivery.Delay.{pump_delay}

abbrev slow_wire : Wire scaled.F
slow_wire = record {
  byte_time = some 86_805;
  cell_bytes = 2;
  latency = 5_000;
  jitter = 0;
  drop_p = scaled.zero_f;
  corrupt_p = scaled.zero_f;
  rng = 1;
  cursor = 0;
}

abbrev slow_spec : WireSpec scaled.F
slow_spec = record {
  baud = some 0;
  latency = none;
  jitter = none;
  drop = none;
  corrupt = none;
  seed = some 7;
}

slow_wire-IsValid : IsValid slow_wire
slow_wire-IsValid = record { cells_nonempty = omega arith; cells_fit = λ bt e. omega arith }

slow_wire-IsClean : IsClean scaled slow_wire
slow_wire-IsClean = record { no_drop = refl; no_corrupt = refl; cells_nonempty = omega arith }

abbrev cable : Pump scaled.F (List Cell)
cable = record { wire = slow_wire; clock = 0; sink = [] }

abbrev reads : List (ℕ × Read)
reads =
    (20, got (1 ∷ 2 ∷ 3 ∷ []))
    ∷ (30, no_consumer)
    ∷ (40, read_failed)
    ∷ (900_000_000, got (4 ∷ []))
    ∷ []

pump_transparent_example : payload (pump scaled recorder cable reads).sink ≡ 1 ∷ 2 ∷ 3 ∷ 4 ∷ []
pump_transparent_example = pump_transparent scaled cable reads slow_wire-IsClean

plan-InOrder_twice_example :
    let (w', cells) = plan scaled 100 slow_wire (1 ∷ 2 ∷ 3 ∷ []) in
    let (w'', cells') = plan scaled 50 w' (4 ∷ []) in
    InOrder 5_100 (w''.cursor + 5_000) (cells ++ cells')
plan-InOrder_twice_example =
    plan-InOrder_twice scaled 100 50 slow_wire (1 ∷ 2 ∷ 3 ∷ []) (4 ∷ []) refl

plan-payload-append_example :
    let (w', cells) = plan scaled 10 slow_wire (1 ∷ 2 ∷ 3 ∷ []) in
    let (w'', cells') = plan scaled 20 w' (4 ∷ []) in
    let (v, whole) = plan scaled 0 slow_wire (1 ∷ 2 ∷ 3 ∷ 4 ∷ []) in
    (payload whole ≡ payload cells ++ payload cells') × (v.rng ≡ w''.rng)
plan-payload-append_example =
    plan-payload-append scaled 0 10 20 slow_wire (1 ∷ 2 ∷ 3 ∷ []) (4 ∷ []) (omega arith) refl

transform-Noisy_example :
    Noisy
      (scaled.lt_f scaled.zero_f scaled.one_f)
      (scaled.lt_f scaled.zero_f scaled.zero_f)
      (1 ∷ 2 ∷ [])
      (transform scaled scaled.one_f scaled.zero_f 1 (1 ∷ 2 ∷ [])).1
transform-Noisy_example = transform-Noisy scaled scaled.one_f scaled.zero_f 1 (1 ∷ 2 ∷ [])

abbrev three_bytes : Bytes
three_bytes = 1 ∷ 2 ∷ 3 ∷ []

-- The same cable, to an end that refuses a write behind the second and takes a millisecond for each,
-- and late in its life.
abbrev picky : ℕ → Bytes → List Cell → Bool
picky at bytes log = leb (length log) 2

abbrev slowly : ℕ → Bytes → List Cell → ℕ
slowly at bytes log = at + 1_000_000

pump_throughput_example :
    86_805
      * written_by 1_400_000
          (pump scaled
            (attempts picky slowly)
            (record { wire = slow_wire; clock = 1_000_000; sink = [] })
            reads).sink
    ≤ 395_000
pump_throughput_example =
    pump_throughput picky slowly scaled slow_wire 1_000_000 reads 1_400_000 slow_wire-IsValid

pump_delay_example : (pump scaled (attempts picky slowly) cable reads).clock ≤ 1_254_357_220
pump_delay_example =
    pump_delay scaled (attempts picky slowly) 1_000_000 (λ at bytes log. omega arith) cable reads
      900_000_000 slow_wire-IsValid (omega arith)
      (omega arith, (omega arith, (omega arith, (omega arith, tt))))
