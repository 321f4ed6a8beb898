-- ===== src/Rfc2217/Settings/Termios.antt =====
-- `PortSettings::from_termios`. The flag bits are the platform's (`libc`), and so a parameter.
use Prim.Native.Nat.{ℕ, ◌^◌, ◌<◌, bit_and, bit_or}
use ttyforge.Common.{◌==◌, if◌then◌else◌, Bool, not, arith}
use ttyforge.Rfc2217.Settings.{PortSettings}
use ttyforge.Rfc2217.Settings.Relay.{InRange}

-- The constants of `libc` that the function names.
pub record Flags : Type 0 where
  pub csize : ℕ
  pub cs5 : ℕ
  pub cs6 : ℕ
  pub cs7 : ℕ
  pub parenb : ℕ
  pub parodd : ℕ
  pub cstopb : ℕ
  pub crtscts : ℕ
  pub ixon : ℕ
  pub ixoff : ℕ

-- The fields of a `termios` that it reads; `ospeed` is what `cfgetospeed` returns.
pub record LineModes : Type 0 where
  pub c_cflag : ℕ
  pub c_iflag : ℕ
  pub ospeed : ℕ

-- `x & m != 0`.
abbrev pub has : ℕ → ℕ → Bool
has x m = not (bit_and x m == 0)

module _ (f : Flags) (baud_of : ℕ → ℕ) where
  data_bits_of : ℕ → ℕ
  data_bits_of size =
      if size == f.cs5 then 5 else if size == f.cs6 then 6 else if size == f.cs7 then 7 else 8

  unfoldable pub from_termios : LineModes → PortSettings
  unfolding data_bits_of
  from_termios tio = record {
    baud = baud_of tio.ospeed;
    data_bits = data_bits_of (bit_and tio.c_cflag f.csize);
    parity =
        if bit_and tio.c_cflag f.parenb == 0 then 1 else if has tio.c_cflag f.parodd then 2 else 3;
    stop_bits = if has tio.c_cflag f.cstopb then 2 else 1;
    flow =
        if has tio.c_cflag f.crtscts
        then 3
        else if has tio.c_iflag (bit_or f.ixon f.ixoff)
        then 2
        else 1;
  }

  -- Whatever the flags say, the settings read from a termios are in RFC 2217's ranges, if its speed
  -- names a 32-bit baud rate.
  pub from_termios-InRange :
      (tio : LineModes) → baud_of tio.ospeed < 2 ^ 32 → InRange (from_termios tio)
  unfolding from_termios
  from_termios-InRange tio h = ground arith
