-- ===== src/Forge/Main.antt =====
-- The command line of src/main.rs once it is parsed, and `main`.
use ttyforge.Common.{ℕ, Bool, Option, List}
use ttyforge.Common.Text.{Text}
use ttyforge.Run.{exit_code, Step}
use ttyforge.Wire.Float.{Float64}
use ttyforge.Wire.Plan.{WireSpec, resolve_seed}
use ttyforge.Status.{Json}
use ttyforge.Forge.Host.{Host}
use ttyforge.Forge.Pair.{pair_run}
use ttyforge.Forge.Sim.{sim_run}
use ttyforge.Forge.Bridge.{bridge_run}
use ttyforge.Forge.Mux.{mux_run}

pub data Cmd : Type 0 where
  pair : List Text → Cmd
  sim : Option Text → Option Text → List Text → Cmd
  bridge : Text → Option Text → Bool → Cmd
  mux : Text → ℕ → List Text → Cmd

-- `WireArgs`
pub record WireArgs (F : Type 0) : Type 0 where
  pub baud_sim : Option ℕ
  pub latency : Option ℕ
  pub jitter : Option ℕ
  pub drop : Option F
  pub corrupt : Option F
  pub seed : Option ℕ

unfoldable pub to_spec : {F : Type 0} → WireArgs F → WireSpec F
to_spec a = record {
  baud = a.baud_sim;
  latency = a.latency;
  jitter = a.jitter;
  drop = a.drop;
  corrupt = a.corrupt;
  seed = a.seed;
}

-- `Cli`
pub record Cli (F : Type 0) : Type 0 where
  pub json : Bool
  pub wire : WireArgs F
  pub cmd : Cmd

module _ (fl : Float64) (js : Json fl.F) {S : Type 0} (h : Host fl.F S) where
  open fl use {F}

  unfoldable pub run_cmd : Cmd → WireSpec F → Bool → Step S (Unit {0})
  run_cmd (pair links) wire json = pair_run fl js h links wire json
  run_cmd (sim preset link exec) wire json = sim_run fl js h preset link exec wire json
  run_cmd (bridge endpoint link rfc2217) wire json =
      bridge_run fl js h endpoint link rfc2217 wire json
  run_cmd (mux device baud links) wire json = mux_run fl js h device baud links wire json

  -- `main`, from the parsed command line on.
  unfoldable pub main : Cli F → S → S × Option ℕ
  unfolding run_cmd to_spec
  main cli s =
      let (s', r) =
        run_cmd cli.cmd (resolve_seed (h.nanos s) h.pid (to_spec cli.wire)) cli.json s in
      (s', exit_code r)
