-- ===== src/Forge/Refused.antt =====
-- What the program refuses before it does anything, and the codes of failed setups.
use ttyforge.Common.{
  ◌==◌, if◌then◌else◌, length, ℕ, ◌≡◌, refl, sym, Bool, true, false, Option, none, some, List, [],
  ◌∷◌, arith,
}
use ttyforge.Common.Text.{Text}
use ttyforge.Run.{
  other_error, Failure, Outcome, err, find_child, has_setup, failure_code, exit_code, Step, go_on,
  ◌then_◌, fail_with, ensure,
}
use ttyforge.Wire.Float.{Float64}
use ttyforge.Wire.Plan.{WireSpec, resolve_seed}
use ttyforge.Serial.{check_baud}
use ttyforge.Status.{Json}
use ttyforge.Bridge.Endpoint.{Parsed, Endpoint, dial, accept, parse}
use ttyforge.Forge.Host.{Host}
use ttyforge.Forge.Pair.{pair_run}
use ttyforge.Forge.Sim.{sim_run}
use ttyforge.Forge.Bridge.{bridge_parsed, bridge_run}
use ttyforge.Forge.Mux.{mux_run}
use ttyforge.Forge.Main.{Cmd, pair, sim, bridge, mux, to_spec, Cli, run_cmd, main}
use mathlib.Core.Path.{subst}

some_injective : {a b : ℕ} → some a ≡ some b → a ≡ b
some_injective e = cc

module _ (fl : Float64) (js : Json fl.F) {S : Type 0} (h : Host fl.F S) where
  open fl use {F}

  -- The code that a bad endpoint, or a listener for RFC2217, is refused with.
  abbrev endpoint_refusal : Parsed Endpoint → Bool → Option ℕ
  endpoint_refusal (Parsed.err e) rfc2217 = some 3
  endpoint_refusal (Parsed.ok (dial addr)) rfc2217 = none
  endpoint_refusal (Parsed.ok (accept addr)) rfc2217 = if rfc2217 then some 3 else none

  abbrev sim_refusal : Option Text → List Text → Option ℕ
  sim_refusal none [] = some 2
  sim_refusal _ _ = none

  abbrev pair_refusal : List Text → Option ℕ
  pair_refusal [] = none
  pair_refusal (a ∷ []) = some 2
  pair_refusal (a ∷ b ∷ []) = none
  pair_refusal (a ∷ b ∷ c ∷ links) = some 2

  -- The code of a command that is refused as it stands; none is no refusal.
  abbrev pub refusal : Cmd → Option ℕ
  refusal (pair links) = pair_refusal links
  refusal (sim preset at exec) = sim_refusal preset exec
  refusal (bridge endpoint at rfc2217) = endpoint_refusal (parse endpoint) rfc2217
  refusal (mux device baud links) = if check_baud h.platform baud then none else some 2

  -- What a refused command comes to.
  abbrev Refuses : S → S × Outcome (Unit {0}) → ℕ → Type 0
  Refuses s r c = (r.0 ≡ s) × (exit_code r.1 ≡ some c)

  -- A condition that fails in front of two steps.
  unmet :
      {A B : Type 0} (b : Bool) (e : Failure) (k : Unit {0} → Step S A) (l : A → Step S B) (s : S)
      → b ≡ false
      → (ensure b e then_ k then_ l) s ≡ (s, err e)
  unfolding ensure ◌then_◌ go_on
  unmet b e k l s f = λ i. (ensure (f i) e then_ k then_ l) s

  unmet-Refuses :
      {A : Type 0} (b : Bool) (k : Unit {0} → Step S A) (l : A → Step S (Unit {0})) (s : S)
      → b ≡ false
      → Refuses s ((ensure b (other_error ∷ []) then_ k then_ l) s) 2
  unfolding exit_code failure_code find_child has_setup
  unmet-Refuses b k l s f =
      subst (λ r. Refuses s r 2) (sym (unmet b (other_error ∷ []) k l s f)) (refl, refl)

  pair-Refuses :
      (links : List Text) (wire : WireSpec F) (json : Bool) (s : S) (c : ℕ)
      → pair_refusal links ≡ some c
      → Refuses s (pair_run fl js h links wire json s) c
  unfolding pair_run
  pair-Refuses [] wire json s c e = cc
  pair-Refuses (a ∷ []) wire json s c e =
      subst (λ n. Refuses s (pair_run fl js h (a ∷ []) wire json s) n) (some_injective e)
        (unmet-Refuses false _ _ s refl)
  pair-Refuses (a ∷ b ∷ []) wire json s c e = cc
  pair-Refuses (a ∷ b ∷ x ∷ links) wire json s c e =
      subst (λ n. Refuses s (pair_run fl js h (a ∷ b ∷ x ∷ links) wire json s) n) (some_injective e)
        (unmet-Refuses (length (a ∷ b ∷ x ∷ links) == 2) _ _ s (ground arith))

  sim-Refuses :
      (preset at : Option Text) (exec : List Text) (wire : WireSpec F) (json : Bool) (s : S) (c : ℕ)
      → sim_refusal preset exec ≡ some c
      → Refuses s (sim_run fl js h preset at exec wire json s) c
  unfolding sim_run
  sim-Refuses none at [] wire json s c e =
      subst (λ n. Refuses s (sim_run fl js h none at [] wire json s) n) (some_injective e)
        (unmet-Refuses false _ _ s refl)
  sim-Refuses none at (x ∷ exec) wire json s c e = cc
  sim-Refuses (some p) at exec wire json s c e = cc

  bridge-Refuses :
      (e : Parsed Endpoint) (at : Option Text) (rfc2217 : Bool) (wire : WireSpec F) (json : Bool)
      (s : S) (c : ℕ)
      → endpoint_refusal e rfc2217 ≡ some c
      → Refuses s (bridge_parsed fl js h e at rfc2217 wire json s) c
  unfolding bridge_parsed fail_with ◌then_◌ go_on ensure exit_code failure_code find_child has_setup
  bridge-Refuses (Parsed.err x) at rfc2217 wire json s c e = (refl, e)
  bridge-Refuses (Parsed.ok (dial addr)) at rfc2217 wire json s c e = cc
  bridge-Refuses (Parsed.ok (accept addr)) at true wire json s c e = (refl, e)
  bridge-Refuses (Parsed.ok (accept addr)) at false wire json s c e = cc

  mux-Refuses :
      (device : Text) (baud : ℕ) (links : List Text) (wire : WireSpec F) (json : Bool) (s : S)
      → check_baud h.platform baud ≡ false
      → Refuses s (mux_run fl js h device baud links wire json s) 2
  unfolding mux_run
  mux-Refuses device baud links wire json s e = unmet-Refuses (check_baud h.platform baud) _ _ s e

  refusal-mux :
      (baud c : ℕ)
      → (if check_baud h.platform baud then none else some 2) ≡ some c
      → (check_baud h.platform baud ≡ false) × (2 ≡ c)
  refusal-mux baud c e = ground arith

  run_cmd-Refuses :
      (cmd : Cmd) (wire : WireSpec F) (json : Bool) (s : S) (c : ℕ)
      → refusal cmd ≡ some c
      → Refuses s (run_cmd fl js h cmd wire json s) c
  unfolding run_cmd bridge_run
  run_cmd-Refuses (pair links) wire json s c e = pair-Refuses links wire json s c e
  run_cmd-Refuses (sim preset at exec) wire json s c e = sim-Refuses preset at exec wire json s c e
  run_cmd-Refuses (bridge endpoint at rfc2217) wire json s c e =
      bridge-Refuses (parse endpoint) at rfc2217 wire json s c e
  run_cmd-Refuses (mux device baud links) wire json s c e =
      let (unknown, two) = refusal-mux baud c e in
      subst (λ n. Refuses s (run_cmd fl js h (mux device baud links) wire json s) n) two
        (mux-Refuses device baud links wire json s unknown)

  -- A command that is refused as it stands changes nothing, and ends with the refusal's code: 2 for
  -- one link or more than two of a pair, a simulation of nothing and a rate that has no speed, 3 for
  -- an endpoint that does not parse and one that listens for RFC2217.
  pub main-refusal :
      (cli : Cli F) (s : S) (c : ℕ) → refusal cli.cmd ≡ some c → main fl js h cli s ≡ (s, some c)
  unfolding main
  main-refusal cli s c e =
      let wire = resolve_seed (h.nanos s) h.pid (to_spec cli.wire) in
      let (kept, code) = run_cmd-Refuses cli.cmd wire cli.json s c e in λ i. (kept i, code i)
