-- ===== src/Forge/Setup.antt =====
-- The codes of failed setups: a port, a link or a device that could not be had.
use ttyforge.Common.{
  if◌then◌else◌, Bool-cases, ℕ, zero, suc, ◌≡◌, refl, inl, inr, Bool, true, false, Option, none,
  some, [], ◌∷◌,
}
use ttyforge.Common.Text.{Text}
use ttyforge.Run.{
  setup_error, other_error, Failure, Outcome, ok, err, panicked, stuck, find_child, has_setup,
  failure_code, go_on, ◌then_◌,
}
use ttyforge.Serial.Device.{
  LineTermios, Devices, setup_failed, configured, configure_read, configure, close_on_error, adopt,
  opened_device, open_path,
}
use ttyforge.Pty.Link.{Claimed, link, link_busy, no_free_slot, link_failed, pid_failed}
use ttyforge.Pty.Create.{Descriptors, wrap_master, name_slave, opened_pty, create}
use ttyforge.Forge.Host.{Host, claim_result, claim_link}

-- So many contexts around an error.
abbrev pub within : ℕ → Failure → Failure
within zero e = e
within (suc n) e = other_error ∷ within n e

-- An error that `main` ends with 3, under any further context.
abbrev pub IsSetup : {A : Type 0} → Outcome A → Type 0
IsSetup (err e) = (outer : ℕ) → failure_code (within outer e) ≡ 3
IsSetup _ = Unit {0}

-- Neither context nor system error hides the mark, or is a child's status.
no_child : (n m : ℕ) → find_child (within n (setup_error ∷ within m [])) ≡ none
unfolding find_child
no_child zero zero = refl
no_child zero (suc m) = no_child zero m
no_child (suc n) m = no_child n m

is_marked : (n m : ℕ) → has_setup (within n (setup_error ∷ within m [])) ≡ true
unfolding has_setup
is_marked zero m = refl
is_marked (suc n) m = is_marked n m

marked : (n m : ℕ) → failure_code (within n (setup_error ∷ within m [])) ≡ 3
unfolding failure_code
marked n m = rw (failure_code, no_child n m, is_marked n m) refl

module _ {S : Type 0} (k : Descriptors S) where
  wrap_master-IsSetup : (m v : ℕ) (name : Text) (s : S) → IsSetup (wrap_master k m v name s).1
  unfolding wrap_master
  wrap_master-IsSetup m v name s = elim (Bool-cases (k.register m (k.set_nonblocking m s)).1) [
    | inl done ↦ rw done tt
    | inr refused ↦ rw refused (λ n. marked n 2)
  ]

  name_slave-IsSetup : (m v : ℕ) (name : Option Text) (s : S) → IsSetup (name_slave k m v name s).1
  unfolding name_slave
  name_slave-IsSetup m v none s = λ n. marked n 2
  name_slave-IsSetup m v (some name) s = wrap_master-IsSetup m v name s

  opened_pty-IsSetup : (r : S × Option (ℕ × ℕ)) → IsSetup (opened_pty k r).1
  unfolding opened_pty
  opened_pty-IsSetup (s, none) = λ n. marked n 1
  opened_pty-IsSetup (s, some (m, v)) = name_slave-IsSetup m v (k.ptsname_r m s) s

  create-IsSetup : (s : S) → IsSetup (create k s).1
  unfolding create
  create-IsSetup s = opened_pty-IsSetup (k.openpty s)

done_or : {A : Type 0} (done : Bool) (a : A) → IsSetup (if done then ok a else err setup_failed)
done_or true a = tt
done_or false a = λ n. marked n 2

module _ {S : Type 0} (k : Devices S) where
  configured-IsSetup :
      (fd speed : ℕ) (o : Option LineTermios) (s : S) → IsSetup (configure_read k fd speed o s).1
  unfolding configure_read
  configured-IsSetup fd speed none s = λ n. marked n 2
  configured-IsSetup fd speed (some tio) s = done_or (k.tcsetattr fd (configured k speed tio) s).1 _

  adopt-IsSetup :
      (fd : ℕ) (r : S × Outcome (Option (ℕ × ℕ)))
      → IsSetup r.1
      → IsSetup
          (go_on r (λ _ s.
            let (s', done) = k.register fd s in (s', if done then ok fd else err setup_failed))).1
  unfolding go_on
  adopt-IsSetup fd (s, ok x) h = done_or (k.register fd s).1 fd
  adopt-IsSetup fd (s, err e) h = h
  adopt-IsSetup fd (s, panicked) h = tt
  adopt-IsSetup fd (s, stuck) h = tt

  close_on_error-IsSetup :
      (fd : ℕ) (r : S × Outcome ℕ) → IsSetup r.1 → IsSetup (close_on_error k fd r).1
  unfolding close_on_error
  close_on_error-IsSetup fd (s, ok x) h = tt
  close_on_error-IsSetup fd (s, err e) h = h
  close_on_error-IsSetup fd (s, panicked) h = tt
  close_on_error-IsSetup fd (s, stuck) h = tt

  opened_device-IsSetup : (speed : ℕ) (r : S × Option ℕ) → IsSetup (opened_device k speed r).1
  unfolding opened_device adopt configure ◌then_◌
  opened_device-IsSetup speed (s, none) = λ n. marked n 2
  opened_device-IsSetup speed (s, some fd) = close_on_error-IsSetup fd (adopt k fd speed s) (
      adopt-IsSetup fd (configure_read k fd speed (k.tcgetattr fd s) s)
        (configured-IsSetup fd speed (k.tcgetattr fd s) s))

  open_path-IsSetup : (path : Text) (speed : ℕ) (s : S) → IsSetup (open_path k path speed s).1
  unfolding open_path
  open_path-IsSetup path speed s = elim (Bool-cases (k.has_nul path)) [
    | inl nul ↦ rw nul (λ n. marked n 2)
    | inr fine ↦ rw fine (opened_device-IsSetup speed (k.open_tty path s))
  ]

claim_result-IsSetup :
    {F S : Type 0} (h : Host F S) (s : S) (o : Option (S × Claimed))
    → IsSetup (claim_result h s o).1
unfolding claim_result
claim_result-IsSetup h s none = tt
claim_result-IsSetup h s (some (s', link path)) = tt
claim_result-IsSetup h s (some (s', link_busy path)) = λ n. marked n 1
claim_result-IsSetup h s (some (s', no_free_slot)) = λ n. marked n 1
claim_result-IsSetup h s (some (s', link_failed)) = λ n. marked n 2
claim_result-IsSetup h s (some (s', pid_failed path)) = λ n. marked n 2

-- An error of creating a port, of claiming a link or of opening a device at a speed ends the program
-- with 3, whatever contexts are put around it.
pub IsSetup-failure_code :
    {F S : Type 0} (h : Host F S) (explicit : Option Text) (tag slave path : Text) (speed : ℕ)
    (s : S)
    → IsSetup (create h.ptys s).1
      × IsSetup (claim_link h explicit tag slave s).1
      × IsSetup (open_path h.devices path speed s).1
unfolding claim_link
IsSetup-failure_code h explicit tag slave path speed s =
    (create-IsSetup h.ptys s, claim_result-IsSetup h s _, open_path-IsSetup h.devices path speed s)
