-- ===== src/Forge/Sim.antt =====
-- `run` of src/forge/sim.rs, with the parts of `preset_loop` and `exec_loop` before and behind their
-- loops.
use ttyforge.Common.{
  if◌then◌else◌, codes, is_empty, Bool, not, ◌||◌, Option, none, some, List, [], ◌∷◌,
}
use ttyforge.Common.Text.{Text}
use ttyforge.Run.{other_error, ok, err, Step, go_on, ◌then_◌, ensure}
use ttyforge.Wire.Float.{Float64}
use ttyforge.Wire.Plan.{WireSpec, is_some, build_pair}
use ttyforge.Pty.Create.{Port, create}
use ttyforge.Serial.Device.{setup_failed}
use ttyforge.Status.{Json, announce}
use ttyforge.Sim.Device.{Device, make_device}
use ttyforge.Sim.Exec.{exec_result}
use ttyforge.Forge.Host.{Host, claim_link, with_link, install, or_panic}

module _ (fl : Float64) (js : Json fl.F) {S : Type 0} (h : Host fl.F S) where
  open fl use {F}
  open js use {Value, of_text, of_texts, of_map, empty, insert}

  unfoldable pub sim_details : Option Text → List Text → Value
  sim_details (some p) exec = of_map (insert (codes "preset") (of_text p) empty)
  sim_details none exec = of_map (insert (codes "exec") (of_texts exec) empty)

  -- A preset by its name: no such device, or its loop.
  unfoldable pub run_known : Option Device → WireSpec F → Port → Step S (Unit {0})
  run_known none wire port s = (s, err (other_error ∷ []))
  run_known (some device) wire port s =
      go_on (or_panic (build_pair fl (h.now s) wire) s) (λ w s'. h.preset device w.0 w.1 port s')

  unfoldable pub run_preset : Text → WireSpec F → Port → Step S (Unit {0})
  unfolding run_known
  run_preset name wire port s = run_known (make_device name) wire port s

  -- `exec_loop`: the child, its status, and what that makes of the run.
  unfoldable pub spawn_child : List Text → Text → Step S (Unit {0})
  spawn_child exec path s =
      let (s', done) = h.spawn exec path s in (s', if done then ok tt else err setup_failed)

  unfoldable pub run_exec : List Text → Text → WireSpec F → Port → Step S (Unit {0})
  unfolding spawn_child
  run_exec exec path wire port s = go_on (or_panic (build_pair fl (h.now s) wire) s) (λ w.
      spawn_child exec path
      then_ (λ _ s'. let (s'', w') = h.child w.0 w.1 port s' in (s'', exec_result w')))

  unfoldable pub run_device : Option Text → List Text → Text → WireSpec F → Port → Step S (Unit {0})
  unfolding run_preset run_exec
  run_device (some name) exec path wire port s = run_preset name wire port s
  run_device none exec path wire port s = run_exec exec path wire port s

  unfoldable pub sim_serve :
      Option Text → List Text → WireSpec F → Bool → Port → Text → Step S (Unit {0})
  unfolding sim_details run_device
  sim_serve preset exec wire json port path =
      install h
      then_ (λ _.
          announce js h.out json h.pid (codes "sim") (path ∷ []) (sim_details preset exec) wire)
      then_ (λ _. run_device preset exec path wire port)

  unfoldable pub sim_run :
      Option Text → Option Text → List Text → WireSpec F → Bool → Step S (Unit {0})
  unfolding sim_serve
  sim_run preset link exec wire json =
      ensure (is_some preset || not (is_empty exec)) (other_error ∷ [])
      then_ (λ _. create h.ptys)
      then_ (λ port.
          with_link h (claim_link h link (codes "sim") port.slave_name)
            (λ path. sim_serve preset exec wire json port path))
