-- ===== src/Pty/Create.antt =====
-- `VirtualPort::create` of src/forge/pty.rs, over the calls of the kernel that it makes.
pub mod Leaks
use ttyforge.Common.{if◌then◌else◌, ℕ, Bool, Option, none, some, [], ◌∷◌}
use ttyforge.Common.Text.{Text}
use ttyforge.Run.{setup_error, other_error, Outcome, ok, err, Step}

-- The kernel's descriptors. `openpty` is given a raw termios, and `ptsname_r` fails with a code;
-- `register` is `AsyncFd::with_interest`.
pub record Descriptors (S : Type 0) : Type 0 where
  pub openpty : S → S × Option (ℕ × ℕ)
  pub ptsname_r : ℕ → S → Option Text
  pub set_nonblocking : ℕ → S → S
  pub register : ℕ → S → S × Bool
  pub close : ℕ → S → S

-- The two descriptors of a port, and the path of its slave.
pub record Port : Type 0 where
  pub master : ℕ
  pub slave_keep : ℕ
  pub slave_name : Text

module _ {S : Type 0} (k : Descriptors S) where
  -- Both descriptors are closed on an error.
  unfoldable pub close_both : ℕ → ℕ → S → S
  close_both master slave s = k.close slave (k.close master s)

  unfoldable pub wrap_master : ℕ → ℕ → Text → Step S Port
  unfolding close_both
  wrap_master master slave name s =
      let (s', done) = k.register master (k.set_nonblocking master s) in
      if done
      then (s', ok (record { master = master; slave_keep = slave; slave_name = name }))
      else (close_both master slave s', err (setup_error ∷ other_error ∷ other_error ∷ []))

  unfoldable pub name_slave : ℕ → ℕ → Option Text → Step S Port
  unfolding close_both wrap_master
  name_slave master slave none s =
      (close_both master slave s, err (setup_error ∷ other_error ∷ other_error ∷ []))
  name_slave master slave (some name) s = wrap_master master slave name s

  unfoldable pub opened_pty : S × Option (ℕ × ℕ) → S × Outcome Port
  unfolding name_slave
  opened_pty (s, none) = (s, err (setup_error ∷ other_error ∷ []))
  opened_pty (s, some (master, slave)) = name_slave master slave (k.ptsname_r master s) s

  unfoldable pub create : Step S Port
  unfolding opened_pty
  create s = opened_pty (k.openpty s)
