-- ===== src/Serial/Device.antt =====
-- `SerialPort::open` and `configure` of src/forge/serial.rs, over the calls of the kernel that they
-- make.
pub mod Opened
use ttyforge.Common.{◌==◌, if◌then◌else◌, ℕ, Bool, Option, none, some, [], ◌∷◌}
use ttyforge.Common.Text.{Text}
use ttyforge.Run.{setup_error, other_error, Failure, Outcome, ok, err, Step, ◌then_◌}
use ttyforge.Serial.{Platform, speed_of}
use ttyforge.Pty.Discipline.{Termios}
use Prim.Native.Nat.{bit_or}

-- The `termios` fields that `configure` writes; `c_cc` by its two entries.
pub record LineTermios : Type 0 where
  pub modes : Termios
  pub vmin : ℕ
  pub vtime : ℕ

-- The kernel's calls on a device, libc's masks, and `cfmakeraw` on all of a termios. `open` gives a
-- descriptor; `register` is `AsyncFd::with_interest`.
pub record Devices (S : Type 0) : Type 0 where
  pub has_nul : Text → Bool
  pub open_tty : Text → S → S × Option ℕ
  pub close : ℕ → S → S
  pub register : ℕ → S → S × Bool
  pub tcgetattr : ℕ → S → Option LineTermios
  pub tcsetattr : ℕ → LineTermios → S → S × Bool
  pub cfmakeraw : LineTermios → LineTermios
  pub clocal : ℕ
  pub cread : ℕ

-- The error of a system call, below its own context and the mark of a failed setup.
abbrev pub setup_failed : Failure
setup_failed = setup_error ∷ other_error ∷ other_error ∷ []

-- `cfsetispeed` and `cfsetospeed`
abbrev pub at_speed : ℕ → Termios → Termios
at_speed speed t = record t { ispeed = speed; ospeed = speed }

module _ {S : Type 0} (k : Devices S) where
  -- The termios that `configure` writes, from what it has read.
  unfoldable pub configured : ℕ → LineTermios → LineTermios
  configured speed tio =
      let raw = k.cfmakeraw tio in
      let m = raw.modes in
      record {
        modes = at_speed speed (record m { c_cflag = bit_or m.c_cflag (bit_or k.clocal k.cread) });
        vmin = 0;
        vtime = 0;
      }

  -- What `configure` warns of when it reads the device back: the speed requested and the actual one,
  -- where a driver has refused the request.
  unfoldable pub refusal : ℕ → Option LineTermios → Option (ℕ × ℕ)
  refusal speed none = none
  refusal speed (some check) =
      if check.modes.ospeed == speed then none else some (speed, check.modes.ospeed)

  -- `configure` on what `tcgetattr` gave, with what it warns of.
  unfoldable pub configure_read : ℕ → ℕ → Option LineTermios → Step S (Option (ℕ × ℕ))
  unfolding configured refusal
  configure_read fd speed none s = (s, err setup_failed)
  configure_read fd speed (some tio) s =
      let (s', done) = k.tcsetattr fd (configured speed tio) s in
      (s', if done then ok (refusal speed (k.tcgetattr fd s')) else err setup_failed)

  unfoldable pub configure : ℕ → ℕ → Step S (Option (ℕ × ℕ))
  unfolding configure_read
  configure fd speed s = configure_read fd speed (k.tcgetattr fd s) s

  -- An `OwnedFd` that an error drops.
  unfoldable pub close_on_error : {A : Type 0} → ℕ → S × Outcome A → S × Outcome A
  close_on_error fd (s, ok a) = (s, ok a)
  close_on_error fd (s, r) = (k.close fd s, r)

  -- What follows once the device is open: its descriptor is the port's.
  unfoldable pub adopt : ℕ → ℕ → Step S ℕ
  unfolding configure
  adopt fd speed = configure fd speed then_ (λ _ s.
      let (s', done) = k.register fd s in (s', if done then ok fd else err setup_failed))

  unfoldable pub opened_device : ℕ → S × Option ℕ → S × Outcome ℕ
  unfolding close_on_error adopt
  opened_device speed (s, none) = (s, err setup_failed)
  opened_device speed (s, some fd) = close_on_error fd (adopt fd speed s)

  unfoldable pub open_path : Text → ℕ → Step S ℕ
  unfolding opened_device
  open_path path speed s =
      if k.has_nul path then (s, err setup_failed) else opened_device speed (k.open_tty path s)

  -- `SerialPort::open`, from what `speed_of` gives on.
  unfoldable pub open_at : Option ℕ → Text → Step S ℕ
  unfolding open_path
  open_at none path s = (s, err (other_error ∷ []))
  open_at (some speed) path s = open_path path speed s

  unfoldable pub open_port : Platform → Text → ℕ → Step S ℕ
  unfolding open_at
  open_port p path baud s = open_at (speed_of p baud) path s
