-- ===== src/Forge/Steps.antt =====
-- The steps of a run, by what they leave in the directory.
use ttyforge.Common.{ℕ, Bool, true, false, Option, none, some, List}
use ttyforge.Common.Text.{Text}
use ttyforge.Run.{
  Frame, Failure, Outcome, ok, err, panicked, stuck, context, Step, go_on, ◌then_◌, ensure,
}
use ttyforge.Wire.Plan.{WireSpec, Wire}
use ttyforge.Serial.Device.{LineTermios}
use ttyforge.Pty.Create.{Port}
use ttyforge.Sim.Device.{Device}
use ttyforge.Forge.Host.{Signal, Host, in_context, or_panic}
use ttyforge.Forge.Tidy.{HasDirectory, Nothing, Adds, Adds-none, Adds-then}

-- A machine whose calls, but for those on files, put nothing into the directory.
pub record IsQuiet (F S : Type 0) (h : Host F S) (d : HasDirectory S h.files) : Type 0 where
  pub openpty_quiet : (s : S) → Adds h.files d Nothing s (h.ptys.openpty s).0
  pub nonblocking_quiet : (fd : ℕ) (s : S) → Adds h.files d Nothing s (h.ptys.set_nonblocking fd s)
  pub register_quiet : (fd : ℕ) (s : S) → Adds h.files d Nothing s (h.ptys.register fd s).0
  pub close_quiet : (fd : ℕ) (s : S) → Adds h.files d Nothing s (h.ptys.close fd s)
  pub open_quiet : (p : Text) (s : S) → Adds h.files d Nothing s (h.devices.open_tty p s).0
  pub adopt_quiet : (fd : ℕ) (s : S) → Adds h.files d Nothing s (h.devices.register fd s).0
  pub drop_quiet : (fd : ℕ) (s : S) → Adds h.files d Nothing s (h.devices.close fd s)
  pub tcsetattr_quiet :
      (fd : ℕ) (t : LineTermios) (s : S) → Adds h.files d Nothing s (h.devices.tcsetattr fd t s).0
  pub line_quiet : (t : Text) (s : S) → Adds h.files d Nothing s (h.out.write_line t s).0
  pub flush_quiet : (s : S) → Adds h.files d Nothing s (h.out.flush s).0
  pub signal_quiet : (sig : Signal) (s : S) → Adds h.files d Nothing s (h.signal sig s).0
  pub listen_quiet : (a : Text) (s : S) → Adds h.files d Nothing s (h.listen_on a s).0
  pub spawn_quiet :
      (exec : List Text) (p : Text) (s : S) → Adds h.files d Nothing s (h.spawn exec p s).0
  pub cables_quiet :
      (w v : Wire F) (a b : Port) (s : S) → Adds h.files d Nothing s (h.cables w v a b s)
  pub preset_quiet :
      (dev : Device) (w v : Wire F) (p : Port) (s : S)
      → Adds h.files d Nothing s (h.preset dev w v p s).0
  pub child_quiet : (w v : Wire F) (p : Port) (s : S) → Adds h.files d Nothing s (h.child w v p s).0
  pub bridge_quiet :
      (w : WireSpec F) (r : Bool) (p : Port) (s : S) → Adds h.files d Nothing s (h.bridge w r p s).0
  pub consumers_quiet :
      (fd : ℕ) (ws : List (Wire F × Wire F)) (ps : List Port) (s : S)
      → Adds h.files d Nothing s (h.consumers fd ws ps s)

module _ {F S : Type 0} (h : Host F S) (d : HasDirectory S h.files) where
  -- A step that ends holds nothing more.
  abbrev pub Leaves : {A : Type 0} → (Text → Type 0) → S → S × Outcome A → Type 0
  Leaves Held s (s', stuck) = Unit {0}
  Leaves Held s (s', ok a) = Adds h.files d Held s s'
  Leaves Held s (s', err e) = Adds h.files d Held s s'
  Leaves Held s (s', panicked) = Adds h.files d Held s s'

  abbrev pub Tidy : {A : Type 0} → Step S A → Type 0
  Tidy step = (s : S) → Leaves Nothing s (step s)

  pub any-Leaves :
      {A : Type 0} (Held : Text → Type 0) (s s' : S) (r : Outcome A)
      → Adds h.files d Held s s'
      → Leaves Held s (s', r)
  any-Leaves Held s s' stuck a = tt
  any-Leaves Held s s' (ok x) a = a
  any-Leaves Held s s' (err e) a = a
  any-Leaves Held s s' panicked a = a

  pub Leaves-trans :
      {A : Type 0} (Held : Text → Type 0) (s s' : S) (r : S × Outcome A)
      → Adds h.files d Held s s'
      → Leaves Nothing s' r
      → Leaves Held s r
  Leaves-trans Held s s' (u, stuck) a k = tt
  Leaves-trans Held s s' (u, ok x) a k = Adds-then h.files d Held s s' u a k
  Leaves-trans Held s s' (u, err e) a k = Adds-then h.files d Held s s' u a k
  Leaves-trans Held s s' (u, panicked) a k = Adds-then h.files d Held s s' u a k

  pub go_on-Leaves :
      {A B : Type 0} (s : S) (r : S × Outcome A) (rest : A → Step S B)
      → Leaves Nothing s r
      → ((a : A) → Tidy (rest a))
      → Leaves Nothing s (go_on r rest)
  unfolding go_on
  go_on-Leaves s (s', ok a) rest l k = Leaves-trans Nothing s s' (rest a s') l (k a s')
  go_on-Leaves s (s', err e) rest l k = l
  go_on-Leaves s (s', panicked) rest l k = l
  go_on-Leaves s (s', stuck) rest l k = tt

  pub then-Tidy :
      {A B : Type 0} (first : Step S A) (rest : A → Step S B)
      → Tidy first
      → ((a : A) → Tidy (rest a))
      → Tidy (first then_ rest)
  unfolding ◌then_◌
  then-Tidy first rest f k s = go_on-Leaves s (first s) rest (f s) k

  pub in_context-Leaves :
      {A : Type 0} (Held : Text → Type 0) (s : S) (frame : Frame) (r : S × Outcome A)
      → Leaves Held s r
      → Leaves Held s (r.0, context frame r.1)
  unfolding context
  in_context-Leaves Held s frame (s', stuck) l = tt
  in_context-Leaves Held s frame (s', ok a) l = l
  in_context-Leaves Held s frame (s', err e) l = l
  in_context-Leaves Held s frame (s', panicked) l = l

  pub in_context-Tidy :
      {A : Type 0} (f : Frame) (step : Step S A) → Tidy step → Tidy (in_context f step)
  unfolding in_context
  in_context-Tidy f step t s = in_context-Leaves Nothing s f (step s) (t s)

  pub pure-Tidy : {A : Type 0} (r : Outcome A) → Tidy (λ s. (s, r))
  pure-Tidy r s = any-Leaves Nothing s s r (Adds-none h.files d Nothing s)

  pub or_panic-Tidy : {A : Type 0} (o : Option A) → Tidy (or_panic o)
  unfolding or_panic
  or_panic-Tidy none s = Adds-none h.files d Nothing s
  or_panic-Tidy (some a) s = Adds-none h.files d Nothing s

  pub ensure-Tidy : (b : Bool) (e : Failure) → Tidy (ensure b e)
  unfolding ensure
  ensure-Tidy true e s = Adds-none h.files d Nothing s
  ensure-Tidy false e s = Adds-none h.files d Nothing s

  -- A step that comes with what it gives.
  pub quiet-Tidy :
      {A : Type 0} (step : Step S A) → ((s : S) → Adds h.files d Nothing s (step s).0) → Tidy step
  quiet-Tidy step q s = any-Leaves Nothing s (step s).0 (step s).1 (q s)
