-- ===== src/Pty/Discipline/Raw.antt =====
-- What a reassertion of raw mode leaves.
use ttyforge.Common.{
  if◌then◌else◌, Bool-cases, ℕ, ◌≡◌, refl, sym, ap, ◌∙◌, inl, inr, Bool, true, false, Option, none,
  some,
}
use ttyforge.Pty.Discipline.{Termios, Libc, Slave, is_cooked, made_raw, reassert_read, reassert}

-- Two termios with the same mode flags.
abbrev SameModes : Termios → Termios → Type 0
SameModes a b = (a.c_iflag ≡ b.c_iflag) × (a.c_oflag ≡ b.c_oflag) × (a.c_lflag ≡ b.c_lflag)

-- What is relied on of libc: `cfmakeraw` clears the bits that `reassert` tests, and setting a speed
-- leaves the input, output and local modes.
record IsLibc (c : Libc) : Type 0 where
  raw_is_raw : (tio : Termios) → is_cooked c (c.cfmakeraw tio) ≡ false
  ispeed_keeps : (tio : Termios) (v : ℕ) → SameModes (c.cfsetispeed tio v) tio
  ospeed_keeps : (tio : Termios) (v : ℕ) → SameModes (c.cfsetospeed tio v) tio

-- What is relied on of the descriptor: a termios that was set is read back.
record IsSlave {S : Type 0} (fd : Slave S) : Type 0 where
  read_back :
      (tio : Termios) (s s' : S) → fd.tcsetattr tio s ≡ (s', true) → fd.tcgetattr s' ≡ some tio

fixed_false : {S : Type 0} {s s' : S} → ◌≡◌ {A = S × Bool} (s, false) (s', true) → ⊥
fixed_false h = cc

module _ (c : Libc) where
  is_cooked-modes : (a b : Termios) → SameModes a b → is_cooked c a ≡ is_cooked c b
  unfolding is_cooked
  is_cooked-modes a b (i, o, l) = rw (i, o, l) refl

  made_raw-raw :
      (reset : Bool) (tio : Termios) → IsLibc c → is_cooked c (made_raw c reset tio) ≡ false
  unfolding made_raw
  made_raw-raw true tio h = h.raw_is_raw tio
  made_raw-raw false tio h =
      let raw = c.cfmakeraw tio in
      let kept : Termios = record raw { c_cflag = tio.c_cflag } in
      is_cooked-modes (c.cfsetospeed (c.cfsetispeed kept tio.ispeed) tio.ospeed)
        (c.cfsetispeed kept tio.ispeed) (h.ospeed_keeps (c.cfsetispeed kept tio.ispeed) tio.ospeed)
      ∙ is_cooked-modes (c.cfsetispeed kept tio.ispeed) kept (h.ispeed_keeps kept tio.ispeed)
      ∙ is_cooked-modes kept raw (refl, refl, refl)
      ∙ h.raw_is_raw tio

  module _ {S : Type 0} (fd : Slave S) where
    reassert_read-fixed :
        (reset : Bool) (s s' : S) (o : Option Termios)
        → reassert_read c fd reset o s ≡ (s', true)
        → (tio : Termios) × (fd.tcsetattr (made_raw c reset tio) s ≡ (s', true))
    unfolding reassert_read
    reassert_read-fixed reset s s' none h = cc
    reassert_read-fixed reset s s' (some tio) h = elim (Bool-cases (is_cooked c tio)) [
      | inl e ↦ (
        tio,
        ap (λ b. if b then fd.tcsetattr (made_raw c reset tio) s else (s, false)) (sym e) ∙ h,
      )
      | inr e ↦ absurd (
          fixed_false
            (ap (λ b. if b then fd.tcsetattr (made_raw c reset tio) s else (s, false)) (sym e) ∙ h))
    ]

    reassert_read-raw :
        (reset : Bool) (s : S) (o : Option Termios) (tio : Termios)
        → o ≡ some tio
        → is_cooked c tio ≡ false
        → reassert_read c fd reset o s ≡ (s, false)
    unfolding reassert_read
    reassert_read-raw reset s o tio e h = rw (e, reassert_read, h) refl

    -- Where `cfmakeraw` clears the tested flags, setting a speed leaves the modes and a termios
    -- that was set is read back: once a reassertion has reported that it fixed the line, the next
    -- one, of either kind, finds it raw, changes nothing and reports nothing.
    reassert_twice :
        (reset reset' : Bool) (s s' : S)
        → IsLibc c
        → IsSlave fd
        → reassert c fd reset s ≡ (s', true)
        → reassert c fd reset' s' ≡ (s', false)
    unfolding reassert
    reassert_twice reset reset' s s' hc hf h =
        let (tio, e) = reassert_read-fixed reset s s' (fd.tcgetattr s) h in
        reassert_read-raw reset' s' (fd.tcgetattr s') (made_raw c reset tio)
          (hf.read_back (made_raw c reset tio) s s' e) (made_raw-raw reset tio hc)
