-- ===== src/Pty/Link/Lives.antt =====
-- A link's life call by call, from the claim of its path in `Link::claim` of src/forge/pty.rs to the
-- drop of the `Link`, for processes that share the path.
pub mod Lasting
pub mod Exclusive
use ttyforge.Common.{if◌then◌else◌, ℕ, List, [], ◌∷◌}
use ttyforge.Common.Text.{Text}
use ttyforge.Common.Decimal.{decimal}
use ttyforge.Common.Family.{update}
use ttyforge.Pty.Link.{Files, sidecar, claimed}
use ttyforge.Pty.Link.Calls.{Phase, ended, call}

-- What a process does next: claim the path; write its sidecar; remove the link that has none; hold
-- the link until it is dropped, which removes it; remove the sidecar; nothing more.
pub data Life : Type 0 where
  claiming : Phase → Life
  recording giving_up holding half_dropped left : Life

-- The claim that has the path goes on to the sidecar.
abbrev pub claim_over : Phase → Life
claim_over (ended claimed) = recording
claim_over p = claiming p

-- The processes, by number, and the files.
pub record Lives (S : Type 0) : Type 0 where
  pub lives : ℕ → Life
  pub files : S

module _ {S : Type 0} (fs : Files S) (path : Text) where
  -- One call of the operating system, by the process `pid` whose port is `slave`.
  unfoldable pub live : Text → ℕ → Life → S → Life × S
  unfolding call sidecar
  live slave pid (claiming p) s = let (p', s') = call fs path slave p s in (claim_over p', s')
  live slave pid recording s =
      let (s', done) = fs.write (sidecar path) (decimal pid) s in
      (if done then holding else giving_up, s')
  live slave pid giving_up s = (left, (fs.remove_file path s).0)
  live slave pid holding s = (half_dropped, (fs.remove_file path s).0)
  live slave pid half_dropped s = (left, (fs.remove_file (sidecar path) s).0)
  live slave pid left s = (left, s)

  module _ (slaves : ℕ → Text) (pids : ℕ → ℕ) where
    -- The process `i` makes its next call; and a sequence of turns.
    unfoldable pub step : ℕ → Lives S → Lives S
    unfolding live
    step i c =
        let (l, s) = live (slaves i) (pids i) (c.lives i) c.files in
        record { lives = update c.lives i l; files = s }

    unfoldable pub steps : List ℕ → Lives S → Lives S
    unfolding step
    steps [] c = c
    steps (i ∷ is) c = steps is (step i c)
