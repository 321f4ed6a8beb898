-- ===== src/Examples/Races.antt =====
-- Processes that claim a path at once.
use ttyforge.Common.{
  ◌==◌, if◌then◌else◌, codes, text_eq, ℕ, ◌≡◌, refl, sym, ap, ◌≢◌, inl, true, ◌||◌, Option, none,
  some, [], ◌∷◌, arith,
}
use ttyforge.Common.Text.{Text, is_whitespace, trim_start, trim_end, trim}
use ttyforge.Common.Decimal.{digits_value}
use ttyforge.Sim.Shell.Env.{text_lt, get, insert, remove}
use ttyforge.Pty.Link.{
  Made, made, already_exists, Files, sidecar, parse_i32, pid_sidecar_is_stale, claimed,
}
use ttyforge.Pty.Link.Calls.{linking, ended, call, turns}
use ttyforge.Pty.Link.Calls.Calm.{Links}
use ttyforge.Pty.Link.Calls.Race.{late_removal, turns_shared}
use ttyforge.Pty.Link.Lives.{claiming, live, step, steps}
use ttyforge.Pty.Link.Lives.Lasting.{Machine, HasLink}
use ttyforge.Pty.Link.Lives.Exclusive.{AllAlive, lives_exclusive}
use ttyforge.Examples.Links.{is_there, directory, left_behind}

abbrev slaves : ℕ → Text
slaves i = if i == 0 then codes "/dev/2" else codes "/dev/3"

turns_shared_example :
    let c =
      turns directory
        (codes "/p")
        slaves
        late_removal
        (record { phase = λ k. linking; files = left_behind }) in
    (c.phase 0 ≡ ended claimed)
    × (c.phase 1 ≡ ended claimed)
    × (c.files ≡ (codes "/p", codes "/dev/3") ∷ [])
unfolding get insert remove text_lt sidecar pid_sidecar_is_stale parse_i32 digits_value trim
    trim_start trim_end is_whitespace
turns_shared_example =
    turns_shared directory (codes "/p") slaves left_behind ((codes "/p", codes "/dev/2") ∷ [])
      ((codes "/p", codes "/dev/3") ∷ []) refl refl refl refl refl

-- A disk is what its paths hold; the processes 7 and 8 are alive, no other.
abbrev Disk : Type 0
Disk = Text → Option Text

abbrev put : Text → Option Text → Disk → Disk
put path v m = λ p. if text_eq path p then v else m p

abbrev linked_in : Option Text → Text → Text → Disk → Disk × Made
linked_in (some old) target path m = (m, already_exists)
linked_in none target path m = (put path (some target) m, made)

abbrev disk : Files Disk
disk = record {
  symlink = λ target path m. linked_in (m path) target path m;
  remove_file = λ path m. (put path none m, is_there (m path));
  read_to_string = λ path m. m path;
  write = λ path text m. (put path (some text) m, true);
  process_alive = λ pid m. pid.1 == 7 || pid.1 == 8;
}

linked_in-made :
    (o : Option Text) (target path : Text) (m m' : Disk)
    → linked_in o target path m ≡ (m', made)
    → (o ≡ none) × (m' ≡ put path (some target) m)
linked_in-made none target path m m' e = (refl, sym (ap (λ r. r.0) e))
linked_in-made (some old) target path m m' e = cc

linked_in-unmade :
    (o : Option Text) (target path : Text) (m m' : Disk) (r : Made)
    → linked_in o target path m ≡ (m', r)
    → r ≢ made
    → m' ≡ m
linked_in-unmade none target path m m' r e ne = absurd (ne (sym (ap (λ r. r.1) e)))
linked_in-unmade (some old) target path m m' r e ne = sym (ap (λ r. r.0) e)

disk-Links : Links disk (codes "/p")
unfolding sidecar
disk-Links = record {
  is_there = λ m. is_there (m (codes "/p"));
  made-free = λ t m m' e. ap is_there (linked_in-made (m (codes "/p")) t (codes "/p") m m' e).0;
  made-there = λ t m m' e. rw (linked_in-made (m (codes "/p")) t (codes "/p") m m' e).1 refl;
  made-reads = λ t m m' e. rw (linked_in-made (m (codes "/p")) t (codes "/p") m m' e).1 refl;
  made-alive = λ t m m' pid e. refl;
  unmade = λ t m m' r e ne. linked_in-unmade (m (codes "/p")) t (codes "/p") m m' r e ne;
}

disk-Machine : Machine disk (codes "/p")
unfolding sidecar disk-Links
disk-Machine = record {
  links = disk-Links;
  alive = λ pid. pid.1 == 7 || pid.1 == 8;
  probes = λ pid m. refl;
  written-there = λ text m. refl;
  written-reads = λ text m. inl refl;
  unlinked-reads = λ m. refl;
  unrecorded-there = λ m. refl;
  unrecorded-reads = λ m. inl refl;
}

abbrev pids : ℕ → ℕ
pids i = if i == 0 then 7 else 8

pids-AllAlive : AllAlive disk (codes "/p") disk-Machine slaves pids
unfolding disk-Machine
pids-AllAlive i = (ground arith, ground arith)

-- The process 0 claims the path and drops its link, and before it has removed its sidecar the
-- process 1 has the path.
lives_exclusive_example :
    let c =
      steps disk
        (codes "/p")
        slaves
        pids
        (0 ∷ 0 ∷ 0 ∷ 1 ∷ 1 ∷ [])
        (record { lives = λ k. claiming linking; files = λ p. none }) in
    (is_there (c.files (codes "/p")) ≡ true) × ((j : ℕ) → 1 ≢ j → ¬ HasLink (c.lives j))
unfolding steps step live call sidecar pid_sidecar_is_stale disk-Machine disk-Links
lives_exclusive_example =
    lives_exclusive disk (codes "/p") disk-Machine slaves pids (0 ∷ 0 ∷ 0 ∷ 1 ∷ 1 ∷ []) (λ p. none)
      1 pids-AllAlive (λ d. cc) tt
