-- ===== src/Run.antt =====
-- How a forge's run ends: the errors of its `Result`, `SetupError` of src/forge/pty.rs and
-- `ChildExit` of src/forge/sim.rs, and what `main` of src/main.rs makes of them.
use ttyforge.Common.{if◌then◌else◌, ℕ, min, Bool, true, false, Option, none, some, List, [], ◌∷◌}

-- An `i32`.
pub data ℤ : Type 0 where
  pos : ℕ → ℤ
  negsuc : ℕ → ℤ

-- `code.clamp(0, 255) as u8`
unfoldable pub clamp_byte : ℤ → ℕ
clamp_byte (pos n) = min n 255
clamp_byte (negsuc n) = 0

-- A frame of an error's chain: a child's status, the mark of a failed setup, or anything else.
pub data Frame : Type 0 where
  child_exit : ℤ → Frame
  setup_error : Frame
  other_error : Frame

-- An error, its outermost context first.
abbrev pub Failure : Type 0
Failure = List Frame

-- What a step of a run gives; a run that is stuck never returns.
pub data Outcome (A : Type 0) : Type 0 where
  ok : A → Outcome A
  err : Failure → Outcome A
  panicked : Outcome A
  stuck : Outcome A

-- `.context(frame)`
unfoldable pub context : {A : Type 0} → Frame → Outcome A → Outcome A
context frame (err e) = err (frame ∷ e)
context frame r = r

-- `e.chain().find_map(|c| c.downcast_ref::<ChildExit>())`
unfoldable pub find_child : Failure → Option ℤ
find_child [] = none
find_child (child_exit code ∷ frames) = some code
find_child (frame ∷ frames) = find_child frames

-- `e.downcast_ref::<SetupError>().is_some()`
unfoldable pub has_setup : Failure → Bool
has_setup [] = false
has_setup (setup_error ∷ frames) = true
has_setup (frame ∷ frames) = has_setup frames

-- The code of a failed run.
unfoldable pub failure_code : Failure → ℕ
unfolding find_child has_setup
failure_code e = elim (find_child e) [
  | some code ↦ clamp_byte code
  | none ↦ if has_setup e then 3 else 2
]

-- The end of `main`; a panic ends the process with Rust's 101, and none is a run that never ends.
unfoldable pub exit_code : Outcome (Unit {0}) → Option ℕ
unfolding failure_code
exit_code (ok _) = some 0
exit_code (err e) = some (failure_code e)
exit_code panicked = some 101
exit_code stuck = none

-- A step of a run: the world behind it, and what it gives.
abbrev pub Step : Type 0 → Type 0 → Type 0
Step S A = S → S × Outcome A

-- `?` and `;`: the rest runs only behind a success.
unfoldable pub go_on : {S A B : Type 0} → S × Outcome A → (A → Step S B) → S × Outcome B
go_on (s, ok a) rest = rest a s
go_on (s, err e) rest = (s, err e)
go_on (s, panicked) rest = (s, panicked)
go_on (s, stuck) rest = (s, stuck)

infixl 5 ◌then_◌
unfoldable pub ◌then_◌ : {S A B : Type 0} → Step S A → (A → Step S B) → Step S B
unfolding go_on
(first then_ rest) s = go_on (first s) rest

-- `return Err(e)`, and a condition that fails a run.
unfoldable pub fail_with : {S A : Type 0} → Failure → Step S A
fail_with e s = (s, err e)

unfoldable pub ensure : {S : Type 0} → Bool → Failure → Step S (Unit {0})
ensure cond e s = if cond then (s, ok tt) else (s, err e)
