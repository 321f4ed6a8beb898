-- ===== src/Serial/Device/Opened.antt =====
-- What opening a serial device does to the descriptors and to the device.
use ttyforge.Common.{
  ◌==◌, if◌then◌else◌, ==_iff, Bool-cases, ℕ, ◌≡◌, refl, sym, ap, ◌∙◌, inl, inr, Bool, true, false,
  ◌||◌, Option, none, some,
}
use ttyforge.Common.Bits.{bit_or_absorbs}
use ttyforge.Common.Text.{Text}
use ttyforge.Run.{Outcome, ok, err, panicked, stuck, Step, go_on, ◌then_◌}
use ttyforge.Serial.{Platform, speed_of}
use ttyforge.Serial.Device.{
  LineTermios, Devices, setup_failed, configured, refusal, configure_read, configure,
  close_on_error, adopt, opened_device, open_path, open_at, open_port,
}
use Prim.Native.Nat.{bit_and, bit_or}

-- The table of open descriptors, the termios that the last `tcsetattr` on each has asked for, which
-- the driver need not have granted, and how the calls change them; and of what `cfmakeraw` clears the
-- flags for canonical input, echo, flow control, and the rewriting of CR and of output.
pub record HasDevices (S : Type 0) (k : Devices S) : Type 0 where
  pub is_open : S → ℕ → Bool
  pub asked : S → ℕ → Option LineTermios
  pub icanon : ℕ
  pub echo : ℕ
  pub ixon : ℕ
  pub icrnl : ℕ
  pub opost : ℕ
  pub raw_local :
      (t : LineTermios)
      → (bit_and (k.cfmakeraw t).modes.c_lflag icanon ≡ 0)
        × (bit_and (k.cfmakeraw t).modes.c_lflag echo ≡ 0)
  pub raw_input :
      (t : LineTermios)
      → (bit_and (k.cfmakeraw t).modes.c_iflag ixon ≡ 0)
        × (bit_and (k.cfmakeraw t).modes.c_iflag icrnl ≡ 0)
  pub raw_output : (t : LineTermios) → bit_and (k.cfmakeraw t).modes.c_oflag opost ≡ 0
  pub open_fails :
      (p : Text) (s s' : S) → k.open_tty p s ≡ (s', none) → (x : ℕ) → is_open s' x ≡ is_open s x
  pub open_opens :
      (p : Text) (s s' : S) (fd : ℕ)
      → k.open_tty p s ≡ (s', some fd)
      → (is_open s fd ≡ false) × ((x : ℕ) → is_open s' x ≡ (is_open s x || x == fd))
  pub register_keeps :
      (s : S) (fd x : ℕ)
      → (is_open (k.register fd s).0 x ≡ is_open s x) × (asked (k.register fd s).0 fd ≡ asked s fd)
  pub set_keeps :
      (s : S) (fd x : ℕ) (t : LineTermios) → is_open (k.tcsetattr fd t s).0 x ≡ is_open s x
  pub set_asks : (s : S) (fd : ℕ) (t : LineTermios) → asked (k.tcsetattr fd t s).0 fd ≡ some t
  pub close_closes :
      (s : S) (fd x : ℕ) → is_open (k.close fd s) x ≡ (if x == fd then false else is_open s x)

or_false : (b : Bool) → (b || false) ≡ b
or_false true = refl
or_false false = refl

module _ {S : Type 0} (k : Devices S) (h : HasDevices S k) where
  open h use {
    is_open, asked, icanon, echo, ixon, icrnl, opost, raw_local, raw_input, raw_output, open_fails,
    open_opens, register_keeps, set_keeps, set_asks, close_closes,
  }

  -- A line that is raw, receives, waits for no modem and never blocks, at a speed.
  pub record IsRaw (speed : ℕ) (tio : LineTermios) : Type 0 where
    pub no_lines : bit_and tio.modes.c_lflag icanon ≡ 0
    pub no_echo : bit_and tio.modes.c_lflag echo ≡ 0
    pub no_flow : bit_and tio.modes.c_iflag ixon ≡ 0
    pub no_newlines : bit_and tio.modes.c_iflag icrnl ≡ 0
    pub no_processing : bit_and tio.modes.c_oflag opost ≡ 0
    pub no_modem : bit_or tio.modes.c_cflag k.clocal ≡ tio.modes.c_cflag
    pub receives : bit_or tio.modes.c_cflag k.cread ≡ tio.modes.c_cflag
    pub input_speed : tio.modes.ispeed ≡ speed
    pub output_speed : tio.modes.ospeed ≡ speed
    pub no_minimum : tio.vmin ≡ 0
    pub no_timeout : tio.vtime ≡ 0

  configured-IsRaw : (speed : ℕ) (tio : LineTermios) → IsRaw speed (configured k speed tio)
  unfolding configured
  configured-IsRaw speed tio =
      let (modem, receive) = bit_or_absorbs (k.cfmakeraw tio).modes.c_cflag k.clocal k.cread in
      record {
        no_lines = (raw_local tio).0;
        no_echo = (raw_local tio).1;
        no_flow = (raw_input tio).0;
        no_newlines = (raw_input tio).1;
        no_processing = raw_output tio;
        no_modem = modem;
        receives = receive;
        input_speed = refl;
        output_speed = refl;
        no_minimum = refl;
        no_timeout = refl;
      }

  -- A raw line at the speed is what was asked of a descriptor.
  abbrev pub Asked : ℕ → S → ℕ → Type 0
  Asked speed s fd = (tio : LineTermios) × (asked s fd ≡ some tio) × IsRaw speed tio

  -- What opening should come to, from the descriptors open before: the device's, raw and at the
  -- speed, or no more than before.
  abbrev pub Came : ℕ → (ℕ → Bool) → S × Outcome ℕ → Type 0
  Came speed before (s, ok fd) =
      (before fd ≡ false) × ((x : ℕ) → is_open s x ≡ (before x || x == fd)) × Asked speed s fd
  Came speed before (s, _) = (x : ℕ) → is_open s x ≡ before x

  -- What adopting an open descriptor should come to.
  abbrev Adopted : ℕ → ℕ → (ℕ → Bool) → S × Outcome ℕ → Type 0
  Adopted speed fd table (s, ok d) = (d ≡ fd) × ((x : ℕ) → is_open s x ≡ table x) × Asked speed s fd
  Adopted speed fd table (s, _) = (x : ℕ) → is_open s x ≡ table x

  registered :
      (speed fd : ℕ) (tio : LineTermios) (table : ℕ → Bool) (s : S) (r : S × Bool)
      → k.register fd s ≡ r
      → asked s fd ≡ some tio
      → IsRaw speed tio
      → ((x : ℕ) → is_open s x ≡ table x)
      → Adopted speed fd table (r.0, if r.1 then ok fd else err setup_failed)
  registered speed fd tio table s (s', true) e set raw same_table = (
    refl,
    (λ x. ap (λ q. is_open (q.0) x) (sym e) ∙ (register_keeps s fd x).0 ∙ same_table x),
    (tio, ap (λ q. asked (q.0) fd) (sym e) ∙ (register_keeps s fd 0).1 ∙ set, raw),
  )
  registered speed fd tio table s (s', false) e set raw same_table =
      λ x. ap (λ q. is_open (q.0) x) (sym e) ∙ (register_keeps s fd x).0 ∙ same_table x

  -- What `adopt` does behind `configure`.
  abbrev register_it : ℕ → Option (ℕ × ℕ) → Step S ℕ
  register_it fd _ s =
      let (s', done) = k.register fd s in (s', if done then ok fd else err setup_failed)

  written :
      (speed fd : ℕ) (tio : LineTermios) (s : S) (r : S × Bool)
      → k.tcsetattr fd (configured k speed tio) s ≡ r
      → Adopted speed fd (is_open s) (
          go_on
            (r.0, if r.1 then ok (refusal k speed (k.tcgetattr fd r.0)) else err setup_failed)
            (register_it fd))
  unfolding go_on
  written speed fd tio s (s', true) e =
      registered speed fd (configured k speed tio) (is_open s) s' (k.register fd s') refl
        (ap (λ q. asked (q.0) fd) (sym e) ∙ set_asks s fd (configured k speed tio))
        (configured-IsRaw speed tio)
        (λ x. ap (λ q. is_open (q.0) x) (sym e) ∙ set_keeps s fd x (configured k speed tio))
  written speed fd tio s (s', false) e =
      λ x. ap (λ q. is_open (q.0) x) (sym e) ∙ set_keeps s fd x (configured k speed tio)

  configure_read-Adopted :
      (speed fd : ℕ) (o : Option LineTermios) (s : S)
      → Adopted speed fd (is_open s) (go_on (configure_read k fd speed o s) (register_it fd))
  unfolding configure_read go_on
  configure_read-Adopted speed fd none s = λ x. refl
  configure_read-Adopted speed fd (some tio) s = written speed fd tio s _ refl

  adopt-Adopted : (speed fd : ℕ) (s : S) → Adopted speed fd (is_open s) (adopt k fd speed s)
  unfolding adopt configure ◌then_◌
  adopt-Adopted speed fd s = configure_read-Adopted speed fd (k.tcgetattr fd s) s

  -- A descriptor that is open no more.
  closed_again :
      (before : ℕ → Bool) (s : S) (fd x : ℕ)
      → before fd ≡ false
      → is_open s x ≡ (before x || x == fd)
      → is_open (k.close fd s) x ≡ before x
  closed_again before s fd x h e =
      rw (close_closes, e)
        (elim (Bool-cases (x == fd)) [
          | inl same_fd ↦ rw same_fd (sym h ∙ ap before (sym ((==_iff x fd).0 same_fd)))
          | inr other ↦ rw other (or_false (before x))
        ])

  close_on_error-Came :
      (speed fd : ℕ) (before table : ℕ → Bool) (r : S × Outcome ℕ)
      → before fd ≡ false
      → ((x : ℕ) → table x ≡ (before x || x == fd))
      → Adopted speed fd table r
      → Came speed before (close_on_error k fd r)
  unfolding close_on_error
  close_on_error-Came speed fd before table (s, ok d) h e (same_fd, t, (tio, set, raw)) = (
    ap before same_fd ∙ h,
    (λ x. rw same_fd (t x ∙ e x)),
    (tio, ap (λ v. asked s v) same_fd ∙ set, raw),
  )
  close_on_error-Came speed fd before table (s, err f) h e a =
      λ x. closed_again before s fd x h (a x ∙ e x)
  close_on_error-Came speed fd before table (s, panicked) h e a =
      λ x. closed_again before s fd x h (a x ∙ e x)
  close_on_error-Came speed fd before table (s, stuck) h e a =
      λ x. closed_again before s fd x h (a x ∙ e x)

  opened_device-Came :
      (speed : ℕ) (path : Text) (s : S) (r : S × Option ℕ)
      → k.open_tty path s ≡ r
      → Came speed (is_open s) (opened_device k speed r)
  unfolding opened_device
  opened_device-Came speed path s (s', none) e = open_fails path s s' e
  opened_device-Came speed path s (s', some fd) e =
      let (h, opens) = open_opens path s s' fd e in
      close_on_error-Came speed fd (is_open s) (is_open s') (adopt k fd speed s') h opens
        (adopt-Adopted speed fd s')

  open_path-Came :
      (path : Text) (speed : ℕ) (s : S) → Came speed (is_open s) (open_path k path speed s)
  unfolding open_path
  open_path-Came path speed s = elim (Bool-cases (k.has_nul path)) [
    | inl nul ↦ rw nul (λ x. refl)
    | inr fine ↦ rw fine (opened_device-Came speed path s (k.open_tty path s) refl)
  ]

  -- Opening a device at a rate that has a speed leaves it open, with no other descriptor open that
  -- was not, and what was asked of it last is a raw line that receives, waits for no modem, never
  -- blocks and runs at that speed, whatever of it the driver grants; or it fails and leaves none.
  pub open_port-Came :
      (p : Platform) (path : Text) (baud speed : ℕ) (s : S)
      → speed_of p baud ≡ some speed
      → Came speed (is_open s) (open_port k p path baud s)
  unfolding open_port
  open_port-Came p path baud speed s h = rw (open_port, open_at, h) (open_path-Came path speed s)
