-- ===== src/Examples/Sessions.antt =====
-- A simulated shell behind its port.
use ttyforge.Common.{codes, refl, true, false, none, List, [], ◌∷◌, arith}
use ttyforge.Common.Text.{Decoder}
use ttyforge.Wire.Float.{scaled}
use ttyforge.Wire.Plan.{Cell, Wire}
use ttyforge.Wire.Delivery.{Read, no_consumer, got}
use ttyforge.Wire.Delivery.Recorded.{recorder, IsClean}
use ttyforge.Sim.Shell.Handler.{posix}
use ttyforge.Sim.Device.{shell_device, Preset, device_feed, preset_loop}
use ttyforge.Sim.Device.Driven.{Follows, preset_loop-device_feed}

abbrev pub clean_wire : Wire scaled.F
clean_wire = record {
  byte_time = none;
  cell_bytes = 2;
  latency = 0;
  jitter = 0;
  drop_p = scaled.zero_f;
  corrupt_p = scaled.zero_f;
  rng = 1;
  cursor = 0;
}

pub clean_wire-IsClean : IsClean scaled clean_wire
clean_wire-IsClean = record { no_drop = refl; no_corrupt = refl; cells_nonempty = omega arith }

abbrev plain_decoder : Decoder
plain_decoder = record { lossy = λ bytes. bytes; lossy_ascii = λ bytes h. refl }

-- A shell at which `echo` is typed.
abbrev shell_preset : Preset scaled.F (List Cell)
shell_preset = record {
  wire_in = clean_wire;
  wire_out = clean_wire;
  device = shell_device (record { line = codes "echo "; last_was_cr = false; handler = posix });
  clock = 0;
  port = [];
  going = true;
}

-- The question mark, then the line's end.
abbrev typed_status : List Read
typed_status = got (codes "$?") ∷ no_consumer ∷ got (codes "\r") ∷ []

preset_loop-device_feed_example :
    Follows plain_decoder scaled
      (device_feed plain_decoder shell_preset.device (codes "$?\r"))
      (preset_loop plain_decoder scaled recorder shell_preset typed_status)
      []
preset_loop-device_feed_example =
    preset_loop-device_feed plain_decoder scaled shell_preset typed_status clean_wire-IsClean
      clean_wire-IsClean refl
