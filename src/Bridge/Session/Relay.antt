-- ===== src/Bridge/Session/Relay.antt =====
-- What a settings poll sends, and the bytes that a down wire drops.
use ttyforge.Common.{
  Bool-cases, length, ℕ, ◌+◌, ◌≤◌, ◌≡◌, refl, sym, ap, ◌∙◌, ◌⊎◌, inl, inr, true, false, none, some,
  List, [], ◌∷◌, arith,
}
use ttyforge.Wire.Plan.{new}
use ttyforge.Wire.Delivery.{Read, no_consumer, got, read_failed}
use ttyforge.Rfc2217.Settings.{PortSettings, settings_eq, settings_eq_iff}
use ttyforge.Rfc2217.Settings.Termios.{LineModes}
use ttyforge.Rfc2217.Settings.Relay.{
  unless_query, server_applies, InRange, server_applies-commands_to,
}
use ttyforge.Bridge.Session.{Observed, relayed, drain_while_down}

told :
    (last new : PortSettings)
    → 1 ≤ new.baud
    → record new { baud = unless_query last.baud new.baud } ≡ new
told last new b = ground (arith, b)

module _ (from_termios : LineModes → PortSettings) where
  -- Where a poll finds a termios whose settings are in range and have a baud rate, a server that
  -- agreed with the port before it agrees with the port after it: the commands relayed take the
  -- server from the recorded settings to the new ones, which are recorded.
  pub relayed_agrees :
      (tio : LineModes) (last : PortSettings)
      → InRange (from_termios tio)
      → 1 ≤ (from_termios tio).baud
      → let o : Observed = record { com_ok = true; termios = some tio } in
        ((relayed from_termios o last).0 ≡ from_termios tio)
        × (server_applies (relayed from_termios o last).1 last ≡ some (from_termios tio))
  unfolding relayed
  relayed_agrees tio last r b = elim (Bool-cases (settings_eq (from_termios tio) last)) [
    | inl e ↦
        (let same_settings = (settings_eq_iff (from_termios tio) last).0 e in
          rw e (sym same_settings, unfold server_applies in ap some (sym same_settings)))
    | inr n ↦ rw n (
      refl,
      server_applies-commands_to last (from_termios tio) r
          ∙ ap some (told last (from_termios tio) b),
    )
  ]

  -- Once the peer has refused COM-PORT-OPTION, or when the termios cannot be read, a poll sends
  -- nothing and records nothing.
  pub relayed_silent :
      (o : Observed) (last : PortSettings)
      → (o.com_ok ≡ false) ⊎ (o.termios ≡ none)
      → relayed from_termios o last ≡ (last, [])
  unfolding relayed
  relayed_silent o last (inl e) = rw e refl
  relayed_silent o last (inr e) = elim (Bool-cases o.com_ok) [
    | inl on ↦ rw (on, e) refl
    | inr off ↦ rw off refl
  ]

abbrev pub count_read : List Read → ℕ
count_read [] = 0
count_read (got bytes ∷ rs) = length bytes + count_read rs
count_read (r ∷ rs) = count_read rs

-- With no peer attached every byte written to the port is read and dropped, whatever the reads
-- give in between.
pub drain_while_down_lem :
    (discarded slept : ℕ) (rs : List Read)
    → (drain_while_down discarded slept rs).0 ≡ discarded + count_read rs
unfolding drain_while_down
drain_while_down_lem discarded slept [] = omega arith
drain_while_down_lem discarded slept (no_consumer ∷ rs) =
    drain_while_down_lem discarded (slept + 50) rs
drain_while_down_lem discarded slept (got bytes ∷ rs) =
    omega (arith, drain_while_down_lem (discarded + length bytes) slept rs)
drain_while_down_lem discarded slept (read_failed ∷ rs) =
    drain_while_down_lem discarded (slept + 100) rs
