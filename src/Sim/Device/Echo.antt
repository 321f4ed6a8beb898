-- ===== src/Sim/Device/Echo.antt =====
-- The echo preset gives back what it is sent.
use ttyforge.Common.{◌≡◌, ap, ◌∙◌, true, some, List, [], ◌++◌}
use ttyforge.Common.Text.{Decoder}
use ttyforge.Wire.Float.{Float64}
use ttyforge.Wire.Plan.{Cell}
use ttyforge.Wire.Plan.Payload.{payload}
use ttyforge.Wire.Delivery.{Read}
use ttyforge.Wire.Delivery.Recorded.{recorder, read_bytes, IsClean}
use ttyforge.Sim.Device.{echo_device, Preset, device_feed, preset_loop}
use ttyforge.Sim.Device.Driven.{Follows, preset_loop-device_feed}
use mathlib.Core.Path.{subst}

module _ (fl : Float64) (dec : Decoder) where
  open fl use {F}

  -- The echo preset, up and with nothing written, over lossless, clean wires, whatever their rates,
  -- latencies and jitters, and a port that accepts every write: the loop does not stop, and the
  -- port has received back the bytes that were read from it, all of them and in order.
  pub preset_loop-echo_device :
      (p : Preset F (List Cell)) (rs : List Read)
      → p.device ≡ echo_device
      → IsClean fl p.wire_in
      → IsClean fl p.wire_out
      → p.going ≡ true
      → p.port ≡ []
      → (q : Preset F (List Cell)) × (preset_loop dec fl recorder p rs ≡ some q)
        × (q.going ≡ true)
        × (payload q.port ≡ read_bytes fl rs)
  unfolding device_feed
  preset_loop-echo_device p rs d i o g s =
      let (q, e, k) =
        subst
          (λ v.
            Follows dec fl (device_feed dec v (read_bytes fl rs)) (preset_loop dec fl recorder p rs)
              (payload p.port))
          d (preset_loop-device_feed dec fl p rs i o g) in
      (q, e, k.up, k.at_port ∙ ap (λ c. payload c ++ read_bytes fl rs) s)
