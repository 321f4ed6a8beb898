-- ===== src/Forge/Released.antt =====
-- However a run of the program ends, it has released every link it claimed.
use ttyforge.Common.{
  if◌then◌else◌, codes, ℕ, ◌≡◌, ◌⊎◌, inl, inr, Bool, true, false, Option, none, some, List, [], ◌∷◌,
}
use ttyforge.Common.Text.{Text}
use ttyforge.Run.{other_error, Outcome, ok, err, panicked, stuck, exit_code, go_on, ◌then_◌}
use ttyforge.Wire.Float.{Float64}
use ttyforge.Wire.Plan.{WireSpec, resolve_seed}
use ttyforge.Serial.{speed_of}
use ttyforge.Serial.Device.{
  LineTermios, configured, configure_read, configure, close_on_error, adopt, opened_device,
  open_path, open_at, open_port,
}
use ttyforge.Pty.Link.{sidecar}
use ttyforge.Pty.Create.{Port, create}
use ttyforge.Status.{Json}
use ttyforge.Forge.Host.{Host, claim_link, release, in_context}
use ttyforge.Forge.Mux.{
  mux_port, gather, mux_ports, release_all, consumer_wires, mux_serve, mux_held, mux_run,
}
use ttyforge.Forge.Main.{Cmd, pair, sim, bridge, mux, to_spec, Cli, run_cmd, main}
use ttyforge.Forge.Tidy.{
  HasDirectory, Nothing, was, beside, held, unremovable, Adds, Adds-none, Adds-then,
}
use ttyforge.Forge.Steps.{
  IsQuiet, Leaves, Tidy, any-Leaves, Leaves-trans, then-Tidy, in_context-Tidy, or_panic-Tidy,
  ensure-Tidy,
}
use ttyforge.Forge.Holding.{claim_link-TidyClaim, release-Leaves}
use ttyforge.Forge.Quiet.{create-Tidy, install-Tidy, announce-Tidy}
use ttyforge.Forge.Consumers.{
  Among, LeavesPort, claimed-LeavesPort, created-LeavesPort, LeavesPorts, more-LeavesPorts,
}
use ttyforge.Forge.Teardown.{pair_run-Tidy, sim_run-Tidy, bridge_run-Tidy}

module _ (fl : Float64) (js : Json fl.F) {S : Type 0} (h : Host fl.F S) (d : HasDirectory S h.files)
    (q : IsQuiet fl.F S h d) where
  open fl use {F}
  open q use {open_quiet, adopt_quiet, drop_quiet, tcsetattr_quiet, consumers_quiet}

  mux_port-LeavesPort : (path : Text) (s : S) → LeavesPort h d s (mux_port fl js h path s)
  unfolding mux_port ◌then_◌
  mux_port-LeavesPort path s =
      created-LeavesPort h d s (in_context other_error (create h.ptys) s) _
        (in_context-Tidy h d other_error (create h.ptys) (create-Tidy fl js h d q) s)
        (λ port u.
          claimed-LeavesPort h d port u (claim_link h (some path) (codes "mux") port.slave_name u)
            (claim_link-TidyClaim h d (some path) (codes "mux") port.slave_name u))

  gather-LeavesPorts :
      (s : S) (r : S × Outcome (Port × Text))
      (rest : S → S × (List (Port × Text) × Outcome (Unit {0})))
      → LeavesPort h d s r
      → ((u : S) → LeavesPorts h d u (rest u))
      → LeavesPorts h d s (gather fl js h r rest)
  unfolding gather
  gather-LeavesPorts s (s', ok port) rest l k = more-LeavesPorts h d port s s' (rest s') l (k s')
  gather-LeavesPorts s (s', err e) rest l k = l
  gather-LeavesPorts s (s', panicked) rest l k = l
  gather-LeavesPorts s (s', stuck) rest l k = tt

  mux_ports-LeavesPorts :
      (paths : List Text) (s : S) → LeavesPorts h d s (mux_ports fl js h paths s)
  unfolding mux_ports
  mux_ports-LeavesPorts [] s = Adds-none h.files d Nothing s
  mux_ports-LeavesPorts (path ∷ paths) s =
      gather-LeavesPorts s (mux_port fl js h path s) _ (mux_port-LeavesPort path s)
        (λ u. mux_ports-LeavesPorts paths u)

  release_all-Leaves :
      (ports : List (Port × Text)) (s : S) (r : S × Outcome (Unit {0}))
      → Leaves h d (Among h d ports) s r
      → Leaves h d Nothing s (release_all fl js h ports r)
  unfolding release_all
  release_all-Leaves [] s r l = l
  release_all-Leaves (port ∷ ports) s r l =
      release_all-Leaves ports s (release h port.1 r)
        (release-Leaves h d (Among h d ports) port.1 s r l)

  mux_serve-Tidy :
      (device : Text) (baud dev : ℕ) (wire : WireSpec F) (json : Bool) (ports : List (Port × Text))
      → Tidy h d (mux_serve fl js h device baud dev wire json ports)
  unfolding mux_serve
  mux_serve-Tidy device baud dev wire json ports =
      then-Tidy h d _ _
        (then-Tidy h d _ _
          (then-Tidy h d _ _ (install-Tidy fl js h d q)
            (λ _. announce-Tidy fl js h d q json _ _ _ wire))
          (λ _ s. or_panic-Tidy h d (consumer_wires fl js h (h.now s) wire 0 ports) s))
        (λ ws s. consumers_quiet dev ws _ s)

  mux_held-Leaves :
      (device : Text) (baud dev : ℕ) (wire : WireSpec F) (json : Bool) (s : S)
      (r : S × (List (Port × Text) × Outcome (Unit {0})))
      → LeavesPorts h d s r
      → Leaves h d Nothing s (mux_held fl js h device baud dev wire json r)
  unfolding mux_held go_on
  mux_held-Leaves device baud dev wire json s (s', (ports, ok x)) l =
      release_all-Leaves ports s (mux_serve fl js h device baud dev wire json ports s') (
        Leaves-trans h d (Among h d ports) s s' _ l
          (mux_serve-Tidy device baud dev wire json ports s'))
  mux_held-Leaves device baud dev wire json s (s', (ports, err e)) l =
      release_all-Leaves ports s (s', err e) l
  mux_held-Leaves device baud dev wire json s (s', (ports, panicked)) l =
      release_all-Leaves ports s (s', panicked) l
  mux_held-Leaves device baud dev wire json s (s', (ports, stuck)) l =
      release_all-Leaves ports s (s', stuck) tt

  -- The device.
  configure_read-Tidy :
      (fd speed : ℕ) (o : Option LineTermios) → Tidy h d (configure_read h.devices fd speed o)
  unfolding configure_read
  configure_read-Tidy fd speed none s = Adds-none h.files d Nothing s
  configure_read-Tidy fd speed (some tio) s =
      any-Leaves h d Nothing s _ _ (tcsetattr_quiet fd (configured h.devices speed tio) s)

  adopt-Tidy : (fd speed : ℕ) → Tidy h d (adopt h.devices fd speed)
  unfolding adopt configure
  adopt-Tidy fd speed =
      then-Tidy h d _ _ (λ s. configure_read-Tidy fd speed (h.devices.tcgetattr fd s) s)
        (λ _ s. any-Leaves h d Nothing s _ _ (adopt_quiet fd s))

  close_on_error-Leaves :
      (fd : ℕ) (s : S) (r : S × Outcome ℕ)
      → Leaves h d Nothing s r
      → Leaves h d Nothing s (close_on_error h.devices fd r)
  unfolding close_on_error
  close_on_error-Leaves fd s (s', ok x) l = l
  close_on_error-Leaves fd s (s', err e) l = Adds-then h.files d Nothing s s' _ l (drop_quiet fd s')
  close_on_error-Leaves fd s (s', panicked) l =
      Adds-then h.files d Nothing s s' _ l (drop_quiet fd s')
  close_on_error-Leaves fd s (s', stuck) l = tt

  opened_device-Leaves :
      (speed : ℕ) (s : S) (r : S × Option ℕ)
      → Adds h.files d Nothing s r.0
      → Leaves h d Nothing s (opened_device h.devices speed r)
  unfolding opened_device
  opened_device-Leaves speed s (s', none) a = a
  opened_device-Leaves speed s (s', some fd) a =
      close_on_error-Leaves fd s (adopt h.devices fd speed s')
        (Leaves-trans h d Nothing s s' (adopt h.devices fd speed s') a (adopt-Tidy fd speed s'))

  either-Leaves :
      {A : Type 0} (b : Bool) (s : S) (x y : S × Outcome A)
      → Leaves h d Nothing s x
      → Leaves h d Nothing s y
      → Leaves h d Nothing s (if b then x else y)
  either-Leaves true s x y l k = l
  either-Leaves false s x y l k = k

  open_at-Tidy : (o : Option ℕ) (path : Text) → Tidy h d (open_at h.devices o path)
  unfolding open_at open_path
  open_at-Tidy none path s = Adds-none h.files d Nothing s
  open_at-Tidy (some speed) path s =
      either-Leaves (h.devices.has_nul path) s _ _ (Adds-none h.files d Nothing s)
        (opened_device-Leaves speed s (h.devices.open_tty path s) (open_quiet path s))

  open_port-Tidy : (path : Text) (baud : ℕ) → Tidy h d (open_port h.devices h.platform path baud)
  unfolding open_port
  open_port-Tidy path baud = open_at-Tidy (speed_of h.platform baud) path

  mux_run-Tidy :
      (device : Text) (baud : ℕ) (links : List Text) (wire : WireSpec F) (json : Bool)
      → Tidy h d (mux_run fl js h device baud links wire json)
  unfolding mux_run
  mux_run-Tidy device baud links wire json =
      then-Tidy h d _ _ (then-Tidy h d _ _ (ensure-Tidy h d _ _) (λ _. open_port-Tidy device baud))
        (λ dev s.
          mux_held-Leaves device baud dev wire json s (mux_ports fl js h links s)
            (mux_ports-LeavesPorts links s))

  run_cmd-Tidy :
      (c : Cmd) (wire : WireSpec F) (json : Bool) → Tidy h d (run_cmd fl js h c wire json)
  unfolding run_cmd
  run_cmd-Tidy (pair links) wire json = pair_run-Tidy fl js h d q links wire json
  run_cmd-Tidy (sim preset at exec) wire json = sim_run-Tidy fl js h d q preset at exec wire json
  run_cmd-Tidy (bridge endpoint at rfc2217) wire json =
      bridge_run-Tidy fl js h d q endpoint at rfc2217 wire json
  run_cmd-Tidy (mux device baud links) wire json = mux_run-Tidy device baud links wire json

  -- A run that ends has left what it should.
  ended-Adds :
      (s : S) (r : S × Outcome (Unit {0})) (c : ℕ)
      → Leaves h d Nothing s r
      → exit_code r.1 ≡ some c
      → Adds h.files d Nothing s r.0
  unfolding exit_code
  ended-Adds s (s', ok x) c l e = l
  ended-Adds s (s', err f) c l e = l
  ended-Adds s (s', panicked) c l e = l
  ended-Adds s (s', stuck) c l e = cc

  -- However a command comes to its exit code, by an error, by a panic, or by a signal behind the
  -- registration of its handlers: a path of the directory that is there afterwards was there before,
  -- or is a sidecar, or is one that the process cannot remove. The links that it claimed are gone,
  -- where it can remove them. A signal that comes before the handlers are there kills the process
  -- without a code; of that nothing is said.
  pub main-released :
      (cli : Cli F) (s : S) (c : ℕ) (p : Text)
      → (main fl js h cli s).1 ≡ some c
      → d.exists (main fl js h cli s).0 p ≡ true
      → (d.exists s p ≡ true) ⊎ ((path : Text) × (p ≡ sidecar path)) ⊎ (d.removable p ≡ false)
  unfolding main
  main-released cli s c p ends e =
      let wire = resolve_seed (h.nanos s) h.pid (to_spec cli.wire) in
      let r = run_cmd fl js h cli.cmd wire cli.json s in
      elim (ended-Adds s r c (run_cmd-Tidy cli.cmd wire cli.json s) ends p e) [
        | was here ↦ inl here
        | beside path side ↦ inr (inl (path, side))
        | unremovable u ↦ inr (inr u)
        | held x ↦ absurd x
      ]
