-- ===== src/Pty/Link/Calls.antt =====
-- `try_claim_link` of src/forge/pty.rs call by call, for processes that claim the same path at once:
-- between two calls of one the others may make theirs.
pub mod Calm
pub mod Race
use ttyforge.Common.{if◌then◌else◌, ℕ, Option, List, [], ◌∷◌}
use ttyforge.Common.Text.{Text}
use ttyforge.Common.Family.{update}
use ttyforge.Pty.Link.{
  Made, made, already_exists, not_made, Files, sidecar, pid_sidecar_is_stale, is_stale, Claim,
  claimed, busy, failed,
}

-- What a claim does next: link the path, read the sidecar of the one it found, probe the process in
-- what it has read, remove the link, remove the sidecar; or nothing more.
pub data Phase : Type 0 where
  linking found clearing half_cleared : Phase
  seen : Option Text → Phase
  ended : Claim → Phase

abbrev pub linked : Made → Phase
linked made = ended claimed
linked already_exists = found
linked not_made = ended failed

-- The claims of one path, by process, and the files.
pub record Claims (S : Type 0) : Type 0 where
  pub phase : ℕ → Phase
  pub files : S

module _ {S : Type 0} (fs : Files S) (path : Text) where
  -- One call of the operating system.
  unfoldable pub call : Text → Phase → S → Phase × S
  unfolding sidecar
  call slave linking s = let (s', m) = fs.symlink slave path s in (linked m, s')
  call slave found s = (seen (fs.read_to_string (sidecar path) s), s)
  call slave (seen contents) s = (
    if is_stale (pid_sidecar_is_stale contents (λ pid. fs.process_alive pid s))
        then clearing
        else ended busy,
    s,
  )
  call slave clearing s = (half_cleared, (fs.remove_file path s).0)
  call slave half_cleared s = (linking, (fs.remove_file (sidecar path) s).0)
  call slave (ended c) s = (ended c, s)

  module _ (slaves : ℕ → Text) where
    -- The process `i` makes its next call; and a sequence of turns.
    unfoldable pub turn : ℕ → Claims S → Claims S
    unfolding call
    turn i c =
        let (p, s) = call (slaves i) (c.phase i) c.files in
        record { phase = update c.phase i p; files = s }

    unfoldable pub turns : List ℕ → Claims S → Claims S
    unfolding turn
    turns [] c = c
    turns (i ∷ is) c = turns is (turn i c)
