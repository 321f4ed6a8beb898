-- ===== src/Forge/Host.antt =====
-- What every forge's run does: it claims links that its end gives up, registers its signals
-- (src/forge/signals.rs), and announces itself.
use ttyforge.Common.{if◌then◌else◌, ℕ, Bool, Option, none, some, List, [], ◌∷◌}
use ttyforge.Common.Text.{Text}
use ttyforge.Run.{
  Frame, setup_error, other_error, Outcome, ok, err, panicked, stuck, context, Step, ◌then_◌,
}
use ttyforge.Wire.Plan.{WireSpec, Wire}
use ttyforge.Serial.{Platform}
use ttyforge.Serial.Device.{Devices, setup_failed}
use ttyforge.Pty.Link.{
  Files, Claimed, link, link_busy, no_free_slot, link_failed, pid_failed, claim, drop_link,
}
use ttyforge.Pty.Create.{Descriptors, Port}
use ttyforge.Status.{Stdout}
use ttyforge.Sim.Exec.{Waited}
use ttyforge.Sim.Device.{Device}

-- The two signals of `Shutdown`.
pub data Signal : Type 0 where
  sigterm : Signal
  sigint : Signal

-- How a bridge's loop around its task and the signals ends.
pub data BridgeEnd : Type 0 where
  interrupted : BridgeEnd
  task_ended : BridgeEnd

-- The machine a forge runs on. The last fields are what its tasks do once the ports are announced,
-- up to the end of the run: a preset's loop may fail, a child and a bridge's task may end.
pub record Host (F S : Type 0) : Type 0 where
  pub files : Files S
  pub rounds : ℕ
  pub pid : ℕ
  pub ptys : Descriptors S
  pub devices : Devices S
  pub platform : Platform
  pub out : Stdout S
  pub signal : Signal → S → S × Bool
  pub now : S → ℕ
  pub nanos : S → ℕ
  pub listen_on : Text → S → S × Option ℕ
  pub local_addr : ℕ → S → Option Text
  pub spawn : List Text → Text → S → S × Bool
  pub cables : Wire F → Wire F → Port → Port → S → S
  pub preset : Device → Wire F → Wire F → Port → S → S × Outcome (Unit {0})
  pub child : Wire F → Wire F → Port → S → S × Waited
  pub bridge : WireSpec F → Bool → Port → S → S × BridgeEnd
  pub consumers : ℕ → List (Wire F × Wire F) → List Port → S → S

module _ {F S : Type 0} (h : Host F S) where
  -- `Link::claim` as a step: the claim's errors, all of them marked as failures of the setup.
  unfoldable pub claim_result : S → Option (S × Claimed) → S × Outcome Text
  claim_result s none = (s, stuck)
  claim_result s (some (s', link path)) = (s', ok path)
  claim_result s (some (s', link_busy path)) = (s', err (setup_error ∷ other_error ∷ []))
  claim_result s (some (s', no_free_slot)) = (s', err (setup_error ∷ other_error ∷ []))
  claim_result s (some (s', link_failed)) = (s', err setup_failed)
  claim_result s (some (s', pid_failed path)) = (s', err setup_failed)

  unfoldable pub claim_link : Option Text → Text → Text → Step S Text
  unfolding claim_result
  claim_link explicit tag slave s =
      claim_result s (claim h.files h.rounds h.pid explicit tag slave s)

  -- A link's `Drop`, behind whatever the rest of the run has come to.
  unfoldable pub release : {A : Type 0} → Text → S × Outcome A → S × Outcome A
  release path (s, stuck) = (s, stuck)
  release path (s, ok a) = (drop_link h.files path s, ok a)
  release path (s, err e) = (drop_link h.files path s, err e)
  release path (s, panicked) = (drop_link h.files path s, panicked)

  unfoldable pub hold : {A : Type 0} → (Text → Step S A) → S × Outcome Text → S × Outcome A
  unfolding release
  hold body (s, ok path) = release path (body path s)
  hold body (s, err e) = (s, err e)
  hold body (s, panicked) = (s, panicked)
  hold body (s, stuck) = (s, stuck)

  -- A run's part behind a claim.
  unfoldable pub with_link : {A : Type 0} → Step S Text → (Text → Step S A) → Step S A
  unfolding hold
  with_link claiming body s = hold body (claiming s)

  -- `Shutdown::install`
  unfoldable pub install_one : Signal → Step S (Unit {0})
  install_one sig s =
      let (s', done) = h.signal sig s in
      (s', if done then ok tt else err (other_error ∷ other_error ∷ []))

  unfoldable pub install : Step S (Unit {0})
  unfolding install_one
  install = install_one sigterm then_ (λ _. install_one sigint)

-- `.context(…)` on a step's result, and a value that a panic may be in place of.
unfoldable pub in_context : {S A : Type 0} → Frame → Step S A → Step S A
in_context frame step s = let (s', r) = step s in (s', context frame r)

unfoldable pub or_panic : {S A : Type 0} → Option A → Step S A
or_panic none s = (s, panicked)
or_panic (some a) s = (s, ok a)
