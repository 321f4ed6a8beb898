-- ===== src/Forge/Teardown.antt =====
-- What a run leaves in the directory, however it ends.
use ttyforge.Common.{ℕ, Bool, Option, none, some, List}
use ttyforge.Common.Text.{Text}
use ttyforge.Run.{setup_error, other_error, fail_with}
use ttyforge.Wire.Float.{Float64}
use ttyforge.Wire.Plan.{WireSpec, build_pair}
use ttyforge.Pty.Create.{Port, create}
use ttyforge.Status.{Json}
use ttyforge.Sim.Device.{Device, make_device}
use ttyforge.Bridge.Endpoint.{Parsed, Endpoint, dial, accept, parse}
use ttyforge.Forge.Host.{Host, or_panic}
use ttyforge.Forge.Pair.{pair_serve, pair_run}
use ttyforge.Forge.Sim.{
  run_known, run_preset, spawn_child, run_exec, run_device, sim_serve, sim_run,
}
use ttyforge.Forge.Bridge.{listening, bind, bridge_serve, bridge_open, bridge_parsed, bridge_run}
use ttyforge.Forge.Tidy.{HasDirectory, Nothing, Adds, Adds-none}
use ttyforge.Forge.Steps.{
  IsQuiet, Leaves, Tidy, any-Leaves, go_on-Leaves, then-Tidy, in_context-Tidy, or_panic-Tidy,
  ensure-Tidy,
}
use ttyforge.Forge.Holding.{claim_link-TidyClaim, in_context-TidyClaim, with_link-Tidy}
use ttyforge.Forge.Quiet.{create-Tidy, install-Tidy, announce-Tidy}

module _ (fl : Float64) (js : Json fl.F) {S : Type 0} (h : Host fl.F S) (d : HasDirectory S h.files)
    (q : IsQuiet fl.F S h d) where
  open fl use {F}
  open q use {
    openpty_quiet, nonblocking_quiet, register_quiet, close_quiet, open_quiet, adopt_quiet,
    drop_quiet, tcsetattr_quiet, line_quiet, flush_quiet, signal_quiet, listen_quiet, spawn_quiet,
    cables_quiet, preset_quiet, child_quiet, bridge_quiet, consumers_quiet,
  }

  pair_serve-Tidy :
      (wire : WireSpec F) (json : Bool) (a b : Port) (pa pb : Text)
      → Tidy h d (pair_serve fl js h wire json a b pa pb)
  unfolding pair_serve
  pair_serve-Tidy wire json a b pa pb =
      then-Tidy h d _ _
        (then-Tidy h d _ _
          (then-Tidy h d _ _ (install-Tidy fl js h d q)
            (λ _. announce-Tidy fl js h d q json _ _ _ wire))
          (λ _ s. or_panic-Tidy h d (build_pair fl (h.now s) wire) s))
        (λ w s. cables_quiet w.0 w.1 a b s)

  pub pair_run-Tidy :
      (links : List Text) (wire : WireSpec F) (json : Bool)
      → Tidy h d (pair_run fl js h links wire json)
  unfolding pair_run
  pair_run-Tidy links wire json =
      then-Tidy h d _ _
        (then-Tidy h d _ _ (ensure-Tidy h d _ _)
          (λ _. in_context-Tidy h d other_error (create h.ptys) (create-Tidy fl js h d q)))
        (λ a.
          then-Tidy h d _ _
            (in_context-Tidy h d other_error (create h.ptys) (create-Tidy fl js h d q))
            (λ b.
              with_link-Tidy h d _ _
                (in_context-TidyClaim h d other_error _ (claim_link-TidyClaim h d _ _ _))
                (λ pa.
                  with_link-Tidy h d _ _
                    (in_context-TidyClaim h d other_error _ (claim_link-TidyClaim h d _ _ _))
                    (λ pb. pair_serve-Tidy wire json a b pa pb))))

  -- The devices.
  run_known-Tidy :
      (o : Option Device) (wire : WireSpec F) (port : Port)
      → Tidy h d (run_known fl js h o wire port)
  unfolding run_known
  run_known-Tidy none wire port s = Adds-none h.files d Nothing s
  run_known-Tidy (some device) wire port s =
      go_on-Leaves h d s (or_panic (build_pair fl (h.now s) wire) s) _
        (or_panic-Tidy h d (build_pair fl (h.now s) wire) s)
        (λ w u. any-Leaves h d Nothing u _ _ (preset_quiet device w.0 w.1 port u))

  spawn_child-Tidy : (exec : List Text) (path : Text) → Tidy h d (spawn_child fl js h exec path)
  unfolding spawn_child
  spawn_child-Tidy exec path s = any-Leaves h d Nothing s _ _ (spawn_quiet exec path s)

  run_exec-Tidy :
      (exec : List Text) (path : Text) (wire : WireSpec F) (port : Port)
      → Tidy h d (run_exec fl js h exec path wire port)
  unfolding run_exec
  run_exec-Tidy exec path wire port s =
      go_on-Leaves h d s (or_panic (build_pair fl (h.now s) wire) s) _
        (or_panic-Tidy h d (build_pair fl (h.now s) wire) s)
        (λ w.
          then-Tidy h d _ _ (spawn_child-Tidy exec path)
            (λ _ u. any-Leaves h d Nothing u _ _ (child_quiet w.0 w.1 port u)))

  run_device-Tidy :
      (preset : Option Text) (exec : List Text) (path : Text) (wire : WireSpec F) (port : Port)
      → Tidy h d (run_device fl js h preset exec path wire port)
  unfolding run_device run_preset
  run_device-Tidy none exec path wire port = run_exec-Tidy exec path wire port
  run_device-Tidy (some name) exec path wire port = run_known-Tidy (make_device name) wire port

  pub sim_run-Tidy :
      (preset at : Option Text) (exec : List Text) (wire : WireSpec F) (json : Bool)
      → Tidy h d (sim_run fl js h preset at exec wire json)
  unfolding sim_run sim_serve
  sim_run-Tidy preset at exec wire json =
      then-Tidy h d _ _ (then-Tidy h d _ _ (ensure-Tidy h d _ _) (λ _. create-Tidy fl js h d q))
        (λ port. with_link-Tidy h d _ _ (claim_link-TidyClaim h d _ _ _) (λ path.
          then-Tidy h d _ _
            (then-Tidy h d _ _ (install-Tidy fl js h d q)
              (λ _. announce-Tidy fl js h d q json _ _ _ wire))
            (λ _. run_device-Tidy preset exec path wire port)))

  -- The bridge.
  listening-Leaves :
      (s : S) (r : S × Option ℕ)
      → Adds h.files d Nothing s r.0
      → Leaves h d Nothing s (listening fl js h r)
  unfolding listening
  listening-Leaves s (s', none) a = a
  listening-Leaves s (s', some l) a = a

  bind-Tidy : (e : Endpoint) → Tidy h d (bind fl js h e)
  unfolding bind
  bind-Tidy (dial addr) s = Adds-none h.files d Nothing s
  bind-Tidy (accept addr) s = listening-Leaves s (h.listen_on addr s) (listen_quiet addr s)

  bridge_open-Tidy :
      (e : Endpoint) (at : Option Text) (rfc2217 : Bool) (wire : WireSpec F) (json : Bool)
      → Tidy h d (bridge_open fl js h e at rfc2217 wire json)
  unfolding bridge_open bridge_serve
  bridge_open-Tidy e at rfc2217 wire json = then-Tidy h d _ _ (create-Tidy fl js h d q) (λ port.
      with_link-Tidy h d _ _ (claim_link-TidyClaim h d _ _ _) (λ path.
        then-Tidy h d _ _ (in_context-Tidy h d setup_error (bind fl js h e) (bind-Tidy e))
          (λ peers s.
            then-Tidy h d _ _
              (then-Tidy h d _ _ (install-Tidy fl js h d q)
                (λ _. announce-Tidy fl js h d q json _ _ _ wire))
              (λ _ u. any-Leaves h d Nothing u _ _ (bridge_quiet wire rfc2217 port u)) s)))

  bridge_parsed-Tidy :
      (e : Parsed Endpoint) (at : Option Text) (rfc2217 : Bool) (wire : WireSpec F) (json : Bool)
      → Tidy h d (bridge_parsed fl js h e at rfc2217 wire json)
  unfolding bridge_parsed fail_with
  bridge_parsed-Tidy (Parsed.err e) at rfc2217 wire json = λ s. Adds-none h.files d Nothing s
  bridge_parsed-Tidy (Parsed.ok e) at rfc2217 wire json =
      then-Tidy h d _ _ (ensure-Tidy h d _ _) (λ _. bridge_open-Tidy e at rfc2217 wire json)

  pub bridge_run-Tidy :
      (endpoint : Text) (at : Option Text) (rfc2217 : Bool) (wire : WireSpec F) (json : Bool)
      → Tidy h d (bridge_run fl js h endpoint at rfc2217 wire json)
  unfolding bridge_run
  bridge_run-Tidy endpoint at rfc2217 wire json =
      bridge_parsed-Tidy (parse endpoint) at rfc2217 wire json
