-- ===== src/Sim/Shell/Commands.antt =====
-- `split_commands` of src/forge/sim.rs.
pub mod Rejoin
use ttyforge.Common.{◌==◌, if◌then◌else◌, is_empty, ℕ, Bool, false, not, ◌&&◌, List, [], ◌∷◌, ◌++◌}
use ttyforge.Common.Text.{Text, trim}
use ttyforge.Sim.Shell.Words.{single_quote, double_quote}

-- The loop's variables.
pub record Splitter : Type 0 where
  pub cmds : List Text
  pub cur : Text
  pub in_s : Bool
  pub in_d : Bool

abbrev pub keep : Splitter → ℕ → Splitter
keep s c = record s { cur = s.cur ++ c ∷ [] }

unfoldable pub split_char : Splitter → ℕ → Splitter
split_char s c =
    if c == single_quote && not s.in_d
    then record s { in_s = not s.in_s; cur = s.cur ++ c ∷ [] }
    else if c == double_quote && not s.in_s
    then record s { in_d = not s.in_d; cur = s.cur ++ c ∷ [] }
    else if c == b';' && (not s.in_s && not s.in_d)
    then record s { cmds = s.cmds ++ s.cur ∷ []; cur = [] }
    else keep s c

unfoldable pub split_from : Splitter → Text → Splitter
unfolding split_char
split_from s [] = s
split_from s (c ∷ cs) = split_from (split_char s c) cs

abbrev pub unsplit : Splitter
unsplit = record { cmds = []; cur = []; in_s = false; in_d = false }

-- The pieces before the blank ones are dropped.
unfoldable pub pieces : Text → List Text
unfolding split_from
pieces line = let s = split_from unsplit line in s.cmds ++ s.cur ∷ []

-- `cmds.retain(|c| !c.trim().is_empty())`
unfoldable pub retain_commands : List Text → List Text
retain_commands [] = []
retain_commands (c ∷ cs) =
    let rest = retain_commands cs in if is_empty (trim c) then rest else c ∷ rest

unfoldable pub split_commands : Text → List Text
unfolding pieces retain_commands
split_commands line = retain_commands (pieces line)
