-- ===== src/Forge/Consumers.antt =====
-- What a mux leaves in the directory: its links are claimed one by one, and all of those that are held
-- when it ends are released.
use ttyforge.Common.{◌≡◌, ◌⊎◌, List, [], ◌∷◌}
use ttyforge.Common.Text.{Text}
use ttyforge.Run.{Outcome, ok, err, panicked, stuck, Step, go_on}
use ttyforge.Pty.Create.{Port}
use ttyforge.Forge.Host.{Host}
use ttyforge.Forge.Tidy.{HasDirectory, Nothing, Nothing-any, Adds, Adds-trans, Adds-then, Adds-both}
use ttyforge.Forge.Steps.{Leaves}
use ttyforge.Forge.Holding.{LeavesLink}

module _ {F S : Type 0} (h : Host F S) (d : HasDirectory S h.files) where
  -- The links of the ports.
  abbrev pub Among : List (Port × Text) → Text → Type 0
  Among [] p = Nothing p
  Among (port ∷ ports) p = (p ≡ port.1) ⊎ Among ports p

  abbrev pub LeavesPort : S → S × Outcome (Port × Text) → Type 0
  LeavesPort s (s', stuck) = Unit {0}
  LeavesPort s (s', ok port) = Adds h.files d (λ p. p ≡ port.1) s s'
  LeavesPort s (s', err e) = Adds h.files d Nothing s s'
  LeavesPort s (s', panicked) = Adds h.files d Nothing s s'

  LeavesPort-trans :
      (s s' : S) (r : S × Outcome (Port × Text))
      → Adds h.files d Nothing s s'
      → LeavesPort s' r
      → LeavesPort s r
  LeavesPort-trans s s' (u, stuck) a l = tt
  LeavesPort-trans s s' (u, ok port) a l =
      Adds-trans h.files d Nothing (λ p. p ≡ port.1) s s' u (Nothing-any (λ p. p ≡ port.1)) a l
  LeavesPort-trans s s' (u, err e) a l = Adds-then h.files d Nothing s s' u a l
  LeavesPort-trans s s' (u, panicked) a l = Adds-then h.files d Nothing s s' u a l

  pub claimed-LeavesPort :
      (port : Port) (s : S) (r : S × Outcome Text)
      → LeavesLink h d s r
      → LeavesPort s (go_on r (λ claimed u. (u, ok (port, claimed))))
  unfolding go_on
  claimed-LeavesPort port s (s', ok path) l = l
  claimed-LeavesPort port s (s', err e) l = l
  claimed-LeavesPort port s (s', panicked) l = l
  claimed-LeavesPort port s (s', stuck) l = tt

  pub created-LeavesPort :
      (s : S) (r : S × Outcome Port) (rest : Port → Step S (Port × Text))
      → Leaves h d Nothing s r
      → ((port : Port) (u : S) → LeavesPort u (rest port u))
      → LeavesPort s (go_on r rest)
  unfolding go_on
  created-LeavesPort s (s', ok port) rest l k = LeavesPort-trans s s' (rest port s') l (k port s')
  created-LeavesPort s (s', err e) rest l k = l
  created-LeavesPort s (s', panicked) rest l k = l
  created-LeavesPort s (s', stuck) rest l k = tt

  abbrev pub LeavesPorts : S → S × (List (Port × Text) × Outcome (Unit {0})) → Type 0
  LeavesPorts s (s', (ports, stuck)) = Unit {0}
  LeavesPorts s (s', (ports, ok x)) = Adds h.files d (Among ports) s s'
  LeavesPorts s (s', (ports, err e)) = Adds h.files d (Among ports) s s'
  LeavesPorts s (s', (ports, panicked)) = Adds h.files d (Among ports) s s'

  pub more-LeavesPorts :
      (port : Port × Text) (s s' : S) (r : S × (List (Port × Text) × Outcome (Unit {0})))
      → Adds h.files d (λ p. p ≡ port.1) s s'
      → LeavesPorts s' r
      → LeavesPorts s (r.0, (port ∷ r.1.0, r.1.1))
  more-LeavesPorts port s s' (u, (ports, stuck)) a l = tt
  more-LeavesPorts port s s' (u, (ports, ok x)) a l =
      Adds-both h.files d (λ p. p ≡ port.1) (Among ports) s s' u a l
  more-LeavesPorts port s s' (u, (ports, err e)) a l =
      Adds-both h.files d (λ p. p ≡ port.1) (Among ports) s s' u a l
  more-LeavesPorts port s s' (u, (ports, panicked)) a l =
      Adds-both h.files d (λ p. p ≡ port.1) (Among ports) s s' u a l
