-- ===== src/Sim/Device/Total.antt =====
-- The shells never panic, whatever bytes they are fed.
use ttyforge.Common.{
  ◌==◌, if◌then◌else◌, Bytes, ◌>>=◌, ℕ, ◌≡◌, refl, Bool, true, false, ◌&&◌, ◌||◌, Option, some, [],
  ◌∷◌, ◌++◌,
}
use ttyforge.Common.Text.{Decoder}
use ttyforge.Sim.Line.{LineDevice, followed, end_line, edit, feed_byte, feed}
use ttyforge.Sim.Shell.Handler.{ShellHandler, on_line, shell_handler}
use ttyforge.Sim.Shell.Handler.Variables.{on_line-total}
use ttyforge.Sim.Device.{shell_device, device_feed}

abbrev pub Ends : {A : Type 0} → Option A → Type 0
Ends {A} o = (r : A) × (o ≡ some r)

followed-Ends :
    {A : Type 0} (o : Option (A × Bytes)) (f : A → Option (A × Bytes))
    → Ends o
    → ((a : A) → Ends (f a))
    → Ends (followed o f)
followed-Ends o f ((a, p), e) g = let ((b, q), d) = g a in ((b, p ++ q), rw (e, d) refl)

if-Ends : {A : Type 0} (b : Bool) (x y : Option A) → Ends x → Ends y → Ends (if b then x else y)
if-Ends true x y p q = p
if-Ends false x y p q = q

some-Ends : {A : Type 0} (a : A) → Ends (some a)
some-Ends a = (a, refl)

bind-Ends : {A B : Type 0} (o : Option A) (f : A → B) → Ends o → Ends (o >>= λ a. some (f a))
bind-Ends o f (a, e) = (f a, rw e refl)

module _ (dec : Decoder) where
  end_line-Ends : (d : LineDevice ShellHandler) (b : ℕ) → Ends (end_line dec shell_handler d b)
  unfolding end_line shell_handler
  end_line-Ends d b =
      let (r, e, kept) = on_line-total d.handler (dec.lossy d.line) in
      bind-Ends (on_line d.handler (dec.lossy d.line)) _ (r, e)

  edit-Ends :
      (was_cr : Bool) (d : LineDevice ShellHandler) (b : ℕ)
      → Ends (edit dec shell_handler was_cr d b)
  unfolding edit
  edit-Ends was_cr d b = if-Ends (b == b'\n' && was_cr) _ _ (some-Ends _) (
      if-Ends (b == b'\r' || b == b'\n') _ _ (end_line-Ends d b) (
        if-Ends (b == 0x08 || b == 0x7f) _ _ (some-Ends _)
          (if-Ends (b == 0x03) _ _ (some-Ends _) (some-Ends _))))

  feed-Ends : (d : LineDevice ShellHandler) (bs : Bytes) → Ends (feed dec shell_handler d bs)
  unfolding feed feed_byte
  feed-Ends d [] = ((d, []), refl)
  feed-Ends d (b ∷ bs) =
      followed-Ends (feed_byte dec shell_handler d b) (λ d'. feed dec shell_handler d' bs)
        (edit-Ends d.last_was_cr (record d { last_was_cr = false }) b) (λ d'. feed-Ends d' bs)

  -- A shell's console takes any bytes: feeding a shell device, in whatever state, never panics and
  -- never runs on.
  pub device_feed-shell :
      (d : LineDevice ShellHandler) (bs : Bytes) → Ends (device_feed dec (shell_device d) bs)
  unfolding device_feed
  device_feed-shell d bs =
      let ((d', out), e) = feed-Ends d bs in ((shell_device d', out), rw e refl)
