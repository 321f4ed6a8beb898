-- ===== src/Forge/Mux.antt =====
-- `run` of src/forge/mux.rs.
use ttyforge.Common.{codes, ◌>>=◌, ℕ, suc, Bool, Option, some, List, [], ◌∷◌}
use ttyforge.Common.Text.{Text}
use ttyforge.Run.{other_error, Outcome, ok, err, panicked, stuck, Step, go_on, ◌then_◌, ensure}
use ttyforge.Wire.Float.{Float64}
use ttyforge.Wire.Plan.{WireSpec, Wire, build_pair_nth}
use ttyforge.Serial.{check_baud}
use ttyforge.Serial.Device.{open_port}
use ttyforge.Pty.Create.{Port, create}
use ttyforge.Status.{Json, announce}
use ttyforge.Forge.Host.{Host, claim_link, release, install, in_context, or_panic}
use mathlib.Core.List.{map}

module _ (fl : Float64) (js : Json fl.F) {S : Type 0} (h : Host fl.F S) where
  open fl use {F}
  open js use {Value, of_text, of_number, of_map, empty, insert}

  -- One of the ports: created, and its link claimed.
  unfoldable pub mux_port : Text → Step S (Port × Text)
  mux_port path = in_context other_error (create h.ptys) then_ (λ port.
      claim_link h (some path) (codes "mux") port.slave_name
      then_ (λ claimed s. (s, ok (port, claimed))))

  -- The ports in the order given, and those that there are already when one fails.
  unfoldable pub gather :
      S × Outcome (Port × Text)
      → (S → S × (List (Port × Text) × Outcome (Unit {0})))
      → S × (List (Port × Text) × Outcome (Unit {0}))
  gather (s, ok port) rest = let (s', (more, r)) = rest s in (s', (port ∷ more, r))
  gather (s, err e) rest = (s, ([], err e))
  gather (s, panicked) rest = (s, ([], panicked))
  gather (s, stuck) rest = (s, ([], stuck))

  unfoldable pub mux_ports : List Text → S → S × (List (Port × Text) × Outcome (Unit {0}))
  unfolding mux_port gather
  mux_ports [] s = (s, ([], ok tt))
  mux_ports (path ∷ paths) s = gather (mux_port path s) (λ u. mux_ports paths u)

  -- The links are dropped in the order of the list.
  unfoldable pub release_all : List (Port × Text) → S × Outcome (Unit {0}) → S × Outcome (Unit {0})
  release_all [] r = r
  release_all ((port, path) ∷ ports) r = release_all ports (release h path r)

  -- A pair of wires for each consumer; none is a panic.
  unfoldable pub consumer_wires :
      ℕ → WireSpec F → ℕ → List (Port × Text) → Option (List (Wire F × Wire F))
  consumer_wires now wire i [] = some []
  consumer_wires now wire i (p ∷ ports) = build_pair_nth fl now wire i >>= λ w.
      consumer_wires now wire (suc i) ports >>= λ ws. some (w ∷ ws)

  unfoldable pub mux_details : Text → ℕ → Value
  mux_details device baud =
      of_map
        (insert (codes "baud") (of_number baud) (insert (codes "device") (of_text device) empty))

  unfoldable pub mux_serve :
      Text → ℕ → ℕ → WireSpec F → Bool → List (Port × Text) → Step S (Unit {0})
  unfolding consumer_wires mux_details
  mux_serve device baud dev wire json ports =
      install h
      then_ (λ _.
          announce js h.out json h.pid (codes "mux") (map (λ p. p.1) ports)
            (mux_details device baud) wire)
      then_ (λ _ s. or_panic (consumer_wires (h.now s) wire 0 ports) s)
      then_ (λ ws s. (h.consumers dev ws (map (λ p. p.0) ports) s, ok tt))

  -- What is held is released, however the rest ends.
  unfoldable pub mux_held :
      Text
      → ℕ
      → ℕ
      → WireSpec F
      → Bool
      → S × (List (Port × Text) × Outcome (Unit {0}))
      → S × Outcome (Unit {0})
  unfolding release_all mux_serve
  mux_held device baud dev wire json (s, (ports, r)) =
      release_all ports (go_on (s, r) (λ _. mux_serve device baud dev wire json ports))

  unfoldable pub mux_run : Text → ℕ → List Text → WireSpec F → Bool → Step S (Unit {0})
  unfolding mux_ports mux_held
  mux_run device baud links wire json =
      ensure (check_baud h.platform baud) (other_error ∷ [])
      then_ (λ _. open_port h.devices h.platform device baud)
      then_ (λ dev s. mux_held device baud dev wire json (mux_ports links s))
