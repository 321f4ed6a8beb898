-- ===== src/Pty/Discipline.antt =====
-- `VirtualPort::reassert` and `termios` of src/forge/pty.rs.
pub mod Raw
use ttyforge.Common.{◌==◌, if◌then◌else◌, ℕ, Bool, true, false, not, ◌||◌, Option, none, some}
use Prim.Native.Nat.{bit_and, bit_or}

-- The `termios` fields that `reassert` reads and writes.
pub record Termios : Type 0 where
  pub c_iflag : ℕ
  pub c_oflag : ℕ
  pub c_cflag : ℕ
  pub c_lflag : ℕ
  pub ispeed : ℕ
  pub ospeed : ℕ

-- libc: the flags' masks, `cfmakeraw`, and `cfsetispeed` and `cfsetospeed` with the speed.
pub record Libc : Type 0 where
  pub icanon : ℕ
  pub echo : ℕ
  pub icrnl : ℕ
  pub onlcr : ℕ
  pub cfmakeraw : Termios → Termios
  pub cfsetispeed : Termios → ℕ → Termios
  pub cfsetospeed : Termios → ℕ → Termios

-- The slave's descriptor: `tcgetattr`, and `tcsetattr` with `TCSANOW`, each with its success.
pub record Slave (S : Type 0) : Type 0 where
  pub tcgetattr : S → Option Termios
  pub tcsetattr : Termios → S → S × Bool

module _ (c : Libc) where
  unfoldable pub is_cooked : Termios → Bool
  is_cooked tio =
      not (bit_and tio.c_lflag (bit_or c.icanon c.echo) == 0)
      || (not (bit_and tio.c_iflag c.icrnl == 0) || not (bit_and tio.c_oflag c.onlcr == 0))

  -- The termios written back.
  unfoldable pub made_raw : Bool → Termios → Termios
  made_raw reset_line_params tio =
      let raw = c.cfmakeraw tio in
      let kept : Termios = record raw { c_cflag = tio.c_cflag } in
      if reset_line_params then raw else c.cfsetospeed (c.cfsetispeed kept tio.ispeed) tio.ospeed

  module _ {S : Type 0} (fd : Slave S) where
    -- `reassert` on what `tcgetattr` gave.
    unfoldable pub reassert_read : Bool → Option Termios → S → S × Bool
    unfolding is_cooked made_raw
    reassert_read reset_line_params none s = (s, false)
    reassert_read reset_line_params (some tio) s =
        if is_cooked tio then fd.tcsetattr (made_raw reset_line_params tio) s else (s, false)

    unfoldable pub reassert : Bool → S → S × Bool
    unfolding reassert_read
    reassert reset_line_params s = reassert_read reset_line_params (fd.tcgetattr s) s

    unfoldable pub reassert_raw_if_needed : S → S × Bool
    unfolding reassert
    reassert_raw_if_needed s = reassert true s

    unfoldable pub reassert_line_discipline_if_needed : S → S × Bool
    unfolding reassert
    reassert_line_discipline_if_needed s = reassert false s

    unfoldable pub termios : S → Option Termios
    termios s = fd.tcgetattr s
