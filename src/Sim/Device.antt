-- ===== src/Sim/Device.antt =====
-- `make_device`, `EchoDevice` and `preset_loop` of src/forge/sim.rs: a preset behind a port, with a
-- wire in either direction.
pub mod Driven
pub mod Echo
pub mod Total
use ttyforge.Common.{
  if◌then◌else◌, Bytes, codes, text_eq, ◌>>=◌, ℕ, ◌+◌, ◌*◌, max, Bool, Option, none, some, List, [],
  ◌∷◌,
}
use ttyforge.Common.Text.{Text, Decoder}
use ttyforge.Wire.Float.{Float64}
use ttyforge.Sim.Line.{LineDevice, new, greeting, feed}
use ttyforge.Wire.Plan.{Cell, Wire, plan}
use ttyforge.Wire.Delivery.{Sink, Read, no_consumer, got, read_failed, ms, deliver}
use ttyforge.Sim.At.{at_handler}
use ttyforge.Sim.Shell.Handler.{ShellHandler, posix, uboot, shell_handler}

-- The boxed devices of `make_device`.
pub data Device : Type 0 where
  echo_device : Device
  at_device : LineDevice (Unit {0}) → Device
  shell_device : LineDevice ShellHandler → Device

-- `make_device`; none is the error of an unknown name.
unfoldable pub make_device : Text → Option Device
make_device name =
    if text_eq name (codes "echo")
    then some echo_device
    else if text_eq name (codes "at")
    then some (at_device (new tt))
    else if text_eq name (codes "shell")
    then some (shell_device (new posix))
    else if text_eq name (codes "uboot")
    then some (shell_device (new uboot))
    else none

abbrev pub back : {A : Type 0} → (A → Device) → Option (A × Bytes) → Option (Device × Bytes)
back f none = none
back f (some (a, out)) = some (f a, out)

-- The port's side of the loop: both wires, the device, the clock and the port; not `going` once a
-- write of a response has failed.
pub record Preset (F S : Type 0) : Type 0 where
  pub wire_in : Wire F
  pub wire_out : Wire F
  pub device : Device
  pub clock : ℕ
  pub port : S
  pub going : Bool

module _ (dec : Decoder) where
  unfoldable pub device_greeting : Device → Bytes
  device_greeting echo_device = []
  device_greeting (at_device d) = greeting dec at_handler d
  device_greeting (shell_device d) = greeting dec shell_handler d

  -- `Device::feed`; none is a panic.
  unfoldable pub device_feed : Device → Bytes → Option (Device × Bytes)
  device_feed echo_device input = some (echo_device, input)
  device_feed (at_device d) input = back at_device (feed dec at_handler d input)
  device_feed (shell_device d) input = back shell_device (feed dec shell_handler d input)

  module _ (fl : Float64) {S : Type 0} (k : Sink S) where
    open fl use {F}

    -- A cell reaches the device, and its response is delivered.
    unfoldable pub respond : Preset F S → Device × Bytes → ℕ → Preset F S
    unfolding deliver
    respond p (device, out) now =
        let (w', sent) = deliver fl k now p.wire_out out p.port in
        record p {
          wire_out = w';
          device = device;
          clock = sent.clock;
          port = sent.sink;
          going = sent.delivered;
        }

    unfoldable pub preset_cells : Preset F S → List Cell → Option (Preset F S)
    unfolding device_feed respond
    preset_cells p [] = some p
    preset_cells p (c ∷ cells) = device_feed p.device c.bytes >>= λ r.
        let p' = respond p r (max p.clock c.due) in
        let rest = preset_cells p' cells in if p'.going then rest else some p'

    unfoldable pub preset_round : Preset F S → Read → Option (Preset F S)
    unfolding preset_cells
    preset_round p no_consumer = some (record p { clock = p.clock + 50 * ms })
    preset_round p (got bytes) =
        let (w', cells) = plan fl p.clock p.wire_in bytes in
        preset_cells (record p { wire_in = w' }) cells
    preset_round p read_failed = some (record p { clock = p.clock + 100 * ms })

    -- The loop over the reads of the port; the response of a failed write ends it.
    unfoldable pub preset_loop : Preset F S → List Read → Option (Preset F S)
    unfolding preset_round
    preset_loop p [] = some p
    preset_loop p (r ∷ rs) =
        let stopped = some p in
        let next = preset_round p r >>= λ p'. preset_loop p' rs in if p.going then next else stopped
