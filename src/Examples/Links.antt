-- ===== src/Examples/Links.antt =====
-- A directory as an association list, and one whose entries cannot be removed.
use ttyforge.Common.{◌==◌, codes, ◌≡◌, refl, Bool, true, false, Option, none, some, [], ◌∷◌}
use ttyforge.Common.Text.{Text, is_whitespace, trim_start, trim_end, trim}
use ttyforge.Common.Decimal.{digits_value}
use ttyforge.Sim.Shell.Env.{Env, text_lt, get, insert, remove}
use ttyforge.Pty.Link.{
  Made, made, already_exists, Files, sidecar, parse_i32, pid_sidecar_is_stale, try_claim_link,
}
use ttyforge.Pty.Link.Retry.{try_claim_spins}

abbrev made_in : Option Text → Text → Text → Env → Env × Made
made_in (some old) target path m = (m, already_exists)
made_in none target path m = (insert path target m, made)

abbrev pub is_there : Option Text → Bool
is_there none = false
is_there (some t) = true

-- Process 7 is alive, no other.
abbrev pub directory : Files Env
directory = record {
  symlink = λ target path m. made_in (get path m) target path m;
  remove_file = λ path m. (remove path m, is_there (get path m));
  read_to_string = λ path m. get path m;
  write = λ path text m. (insert path text m, true);
  process_alive = λ pid m. pid.1 == 7;
}

abbrev sticky : Files Env
sticky = record directory { remove_file = λ path m. (m, false) }

abbrev pub left_behind : Env
left_behind = (codes "/p", codes "/dev/1") ∷ (codes "/p.pid", codes "99") ∷ []

try_claim_spins_example :
    try_claim_link sticky 1_000 (codes "/p") (codes "/dev/2") left_behind ≡ none
unfolding get insert remove text_lt sidecar pid_sidecar_is_stale parse_i32 digits_value trim
    trim_start trim_end is_whitespace
try_claim_spins_example =
    try_claim_spins sticky 1_000 (codes "/p") (codes "/dev/2") left_behind refl refl refl refl
