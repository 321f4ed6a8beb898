-- ===== src/Pty/Link/Pid.antt =====
-- The sidecar that a claim writes is read back as the process that wrote it.
use ttyforge.Common.{ℕ, ◌≤◌, ◌≡◌, refl, Bool, true, false, not, some, [], ◌∷◌, arith}
use ttyforge.Common.Text.{Text, is_whitespace, trim_start, trim_end, trim}
use ttyforge.Common.Decimal.{
  decimal, is_digit, digits_value, digits_value-decimal, decimal-cons, IsDigits, decimal-IsDigits,
}
use ttyforge.Pty.Link.{parse_i32, pid_sidecar_is_stale}

trim_start_digits : (t : Text) → IsDigits t → trim_start t ≡ t
unfolding trim_start is_whitespace
trim_start_digits [] h = refl
trim_start_digits (c ∷ cs) h = ground (arith, h.0)

trim_end_digits : (t : Text) → IsDigits t → trim_end t ≡ t
unfolding trim_end is_whitespace
trim_end_digits [] h = refl
trim_end_digits (c ∷ cs) h = ground (arith, h.0, trim_end_digits cs h.1)

trim_digits : (t : Text) → IsDigits t → trim t ≡ t
unfolding trim
trim_digits t h = rw (trim_start_digits t h) (trim_end_digits t h)

parse_i32_digits :
    (d n : ℕ) (ds : Text)
    → is_digit d ≡ true
    → digits_value 0 (d ∷ ds) ≡ some n
    → n ≤ 0x7fff_ffff
    → parse_i32 (d ∷ ds) ≡ some (false, n)
unfolding parse_i32
parse_i32_digits d n ds h e small = ground (arith, h, e)

parse_i32-decimal : (n : ℕ) → n ≤ 0x7fff_ffff → parse_i32 (decimal n) ≡ some (false, n)
parse_i32-decimal n small =
    let (d, ds, e) = decimal-cons n in
    let digits = rw e at (decimal-IsDigits n) in
    rw e (parse_i32_digits d n ds digits.0 (rw e at (digits_value-decimal n)) small)

-- Whatever the probe: of the sidecar that names a process, by a number that an `i32` holds, the
-- verdict is that the process is gone where the probe does not find it.
pub pid_sidecar_is_stale-decimal :
    (pid : ℕ) (probe : Bool × ℕ → Bool)
    → pid ≤ 0x7fff_ffff
    → pid_sidecar_is_stale (some (decimal pid)) probe ≡ some (not (probe (false, pid)))
unfolding pid_sidecar_is_stale
pid_sidecar_is_stale-decimal pid probe small =
    rw (trim_digits (decimal pid) (decimal-IsDigits pid), parse_i32-decimal pid small) refl
