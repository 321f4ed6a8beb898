-- ===== src/Forge/Quiet.antt =====
-- The steps that every forge takes: the creation of a port, the signals, the announcement.
use ttyforge.Common.{Bool-cases, ℕ, inl, inr, Bool, Option, none, some, List, [], ◌∷◌}
use ttyforge.Common.Text.{Text}
use ttyforge.Wire.Float.{Float64}
use ttyforge.Wire.Plan.{WireSpec}
use ttyforge.Pty.Create.{close_both, wrap_master, name_slave, opened_pty, create}
use ttyforge.Status.{Json, say, announce}
use ttyforge.Forge.Host.{sigterm, sigint, Host, install_one, install}
use ttyforge.Forge.Tidy.{HasDirectory, Nothing, Adds, Adds-then}
use ttyforge.Forge.Steps.{IsQuiet, Leaves, Tidy, any-Leaves, Leaves-trans, then-Tidy}

module _ (fl : Float64) (js : Json fl.F) {S : Type 0} (h : Host fl.F S) (d : HasDirectory S h.files)
    (q : IsQuiet fl.F S h d) where
  open fl use {F}
  open q use {
    openpty_quiet, nonblocking_quiet, register_quiet, close_quiet, open_quiet, adopt_quiet,
    drop_quiet, tcsetattr_quiet, line_quiet, flush_quiet, signal_quiet, listen_quiet, spawn_quiet,
    cables_quiet, preset_quiet, child_quiet, bridge_quiet, consumers_quiet,
  }

  -- A port's creation.
  close_both-quiet :
      (s s' : S) (m v : ℕ)
      → Adds h.files d Nothing s s'
      → Adds h.files d Nothing s (close_both h.ptys m v s')
  unfolding close_both
  close_both-quiet s s' m v a =
      Adds-then h.files d Nothing s _ _ (Adds-then h.files d Nothing s s' _ a (close_quiet m s'))
        (close_quiet v (h.ptys.close m s'))

  wrap_master-Leaves :
      (s s' : S) (m v : ℕ) (name : Text)
      → Adds h.files d Nothing s s'
      → Leaves h d Nothing s (wrap_master h.ptys m v name s')
  unfolding wrap_master
  wrap_master-Leaves s s' m v name a =
      let n = h.ptys.set_nonblocking m s' in
      let b =
        Adds-then h.files d Nothing s n _
          (Adds-then h.files d Nothing s s' n a (nonblocking_quiet m s')) (register_quiet m n) in
      elim (Bool-cases (h.ptys.register m n).1) [
        | inl done ↦ rw done b
        | inr refused ↦ rw refused (close_both-quiet s (h.ptys.register m n).0 m v b)
      ]

  name_slave-Leaves :
      (s s' : S) (m v : ℕ) (name : Option Text)
      → Adds h.files d Nothing s s'
      → Leaves h d Nothing s (name_slave h.ptys m v name s')
  unfolding name_slave
  name_slave-Leaves s s' m v none a = close_both-quiet s s' m v a
  name_slave-Leaves s s' m v (some name) a = wrap_master-Leaves s s' m v name a

  opened-Leaves :
      (s : S) (r : S × Option (ℕ × ℕ))
      → Adds h.files d Nothing s r.0
      → Leaves h d Nothing s (opened_pty h.ptys r)
  unfolding opened_pty
  opened-Leaves s (s', none) a = a
  opened-Leaves s (s', some (m, v)) a = name_slave-Leaves s s' m v (h.ptys.ptsname_r m s') a

  pub create-Tidy : Tidy h d (create h.ptys)
  unfolding create
  create-Tidy s = opened-Leaves s (h.ptys.openpty s) (openpty_quiet s)

  -- The signals and the announcement.
  pub install-Tidy : Tidy h d (install h)
  unfolding install install_one
  install-Tidy =
      then-Tidy h d (install_one h sigterm) (λ _. install_one h sigint)
        (λ s. any-Leaves h d Nothing s _ _ (signal_quiet sigterm s))
        (λ _ s. any-Leaves h d Nothing s _ _ (signal_quiet sigint s))

  say-Tidy : (lines : List Text) → Tidy h d (say h.out lines)
  unfolding say
  say-Tidy [] s = any-Leaves h d Nothing s _ _ (flush_quiet s)
  say-Tidy (line ∷ lines) s = elim (Bool-cases (h.out.write_line line s).1) [
    | inl done ↦ rw done (
        Leaves-trans h d Nothing s _ (say h.out lines (h.out.write_line line s).0)
          (line_quiet line s) (say-Tidy lines (h.out.write_line line s).0))
    | inr refused ↦ rw refused (line_quiet line s)
  ]

  pub announce-Tidy :
      (json : Bool) (forge : Text) (ports : List Text) (details : js.Value) (wire : WireSpec F)
      → Tidy h d (announce js h.out json h.pid forge ports details wire)
  unfolding announce
  announce-Tidy json forge ports details wire = say-Tidy _
