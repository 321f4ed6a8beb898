-- ===== src/Examples/Machines.antt =====
-- A machine whose world is the set of its paths: every call works, and a descriptor is a number.
use ttyforge.Common.{
  codes, text_eq, text_eq→eq, text_eq_refl, ◌≡◌, refl, sym, ap, ◌∙◌, ◌⊎◌, inl, inr, Bool, true,
  false, not, ◌&&◌, ◌||◌, none, some, [], ◌∷◌,
}
use ttyforge.Common.Text.{Text}
use ttyforge.Run.{clamp_byte, ok, exit_code, ◌then_◌, ensure}
use ttyforge.Wire.Float.{scaled}
use ttyforge.Wire.Plan.{resolve_seed, byte_time_of, new, build_pair}
use ttyforge.Serial.{Platform}
use ttyforge.Serial.Device.{Devices, open_path}
use ttyforge.Pty.Link.{Made, made, already_exists, Files, sidecar, claim, drop_link}
use ttyforge.Pty.Create.{Descriptors, create}
use ttyforge.Status.{announce}
use ttyforge.Sim.Exec.{exited, child_ended, exec_result}
use ttyforge.Forge.Host.{interrupted, Host, claim_link, with_link, install, or_panic}
use ttyforge.Forge.Main.{pair, sim, WireArgs, Cli, main}
use ttyforge.Forge.Tidy.{HasDirectory, Nothing, Adds, Adds-none}
use ttyforge.Forge.Steps.{IsQuiet}
use ttyforge.Forge.Released.{main-released}
use ttyforge.Forge.Refused.{main-refusal}
use ttyforge.Forge.Setup.{IsSetup, IsSetup-failure_code}
use ttyforge.Examples.Reports.{shown_json}
use ttyforge.Forge.Sim.{sim_run}

abbrev Paths : Type 0
Paths = Text → Bool

abbrev link_at : Bool → Text → Paths → Paths × Made
link_at true path s = (s, already_exists)
link_at false path s = (λ p. text_eq p path || s p, made)

-- No process can be told gone.
abbrev folder : Files Paths
folder = record {
  symlink = λ target path s. link_at (s path) path s;
  remove_file = λ path s. (λ p. not (text_eq p path) && s p, s path);
  read_to_string = λ path s. none;
  write = λ path text s. (λ p. text_eq p path || s p, true);
  process_alive = λ pid s. true;
}

either : (b c : Bool) → (b || c) ≡ true → (b ≡ true) ⊎ (c ≡ true)
either true c h = inl refl
either false c h = inr h

second_of : (b c : Bool) → (b && c) ≡ true → c ≡ true
second_of true c h = h
second_of false c h = cc

link_at-adds :
    (b : Bool) (path : Text) (s s' : Paths) (m : Made) (p : Text)
    → link_at b path s ≡ (s', m)
    → s' p ≡ true
    → (s p ≡ true) ⊎ ((m ≡ made) × (p ≡ path))
link_at-adds true path s s' m p e h = inl (ap (λ r. r.0 p) e ∙ h)
link_at-adds false path s s' m p e h =
    elim (either (text_eq p path) (s p) (ap (λ r. r.0 p) e ∙ h)) [
      | inl here ↦ inr (sym (ap (λ r. r.1) e), text_eq→eq p path here)
      | inr there ↦ inl there
    ]

written_adds :
    (path : Text) (s : Paths) (p : Text)
    → (text_eq p path || s p) ≡ true
    → (s p ≡ true) ⊎ (p ≡ path)
written_adds path s p h = elim (either (text_eq p path) (s p) h) [
  | inl here ↦ inr (text_eq→eq p path here)
  | inr there ↦ inl there
]

folder-HasDirectory : HasDirectory Paths folder
folder-HasDirectory = record {
  exists = λ s p. s p;
  symlink_adds = λ target path s s' m p e h. link_at-adds (s path) path s s' m p e h;
  write_adds = λ path text s p h. written_adds path s p h;
  removable = λ path. true;
  remove_takes = λ path s h. rw (text_eq_refl path) refl;
  remove_adds = λ path s p h. second_of (not (text_eq p path)) (s p) h;
}

abbrev ptys : Descriptors Paths
ptys = record {
  openpty = λ s. (s, some (3, 4));
  ptsname_r = λ fd s. some (codes "/dev/pts/1");
  set_nonblocking = λ fd s. s;
  register = λ fd s. (s, true);
  close = λ fd s. s;
}

abbrev no_tty : Devices Paths
no_tty = record {
  has_nul = λ t. false;
  open_tty = λ t s. (s, none);
  close = λ fd s. s;
  register = λ fd s. (s, true);
  tcgetattr = λ fd s. none;
  tcsetattr = λ fd t s. (s, true);
  cfmakeraw = λ t. t;
  clocal = 2048;
  cread = 128;
}

abbrev face_value : Platform
face_value = record { code = λ b. b; is_linux = true }

-- The child of a simulation ends with the status 7.
abbrev machine : Host scaled.F Paths
machine = record {
  files = folder;
  rounds = 2;
  pid = 99;
  ptys = ptys;
  devices = no_tty;
  platform = face_value;
  out = record { write_line = λ l s. (s, true); flush = λ s. (s, true) };
  signal = λ sig s. (s, true);
  now = λ s. 0;
  nanos = λ s. 5;
  listen_on = λ a s. (s, some 5);
  local_addr = λ l s. none;
  spawn = λ exec path s. (s, true);
  cables = λ w v a b s. s;
  preset = λ dev w v p s. (s, ok tt);
  child = λ w v p s. (s, child_ended (exited 7));
  bridge = λ w r p s. (s, interrupted);
  consumers = λ fd ws ps s. s;
}

still : (s : Paths) → Adds folder folder-HasDirectory Nothing s s
still s = Adds-none folder folder-HasDirectory Nothing s

machine-IsQuiet : IsQuiet scaled.F Paths machine folder-HasDirectory
machine-IsQuiet = record {
  openpty_quiet = still;
  nonblocking_quiet = λ fd s. still s;
  register_quiet = λ fd s. still s;
  close_quiet = λ fd s. still s;
  open_quiet = λ p s. still s;
  adopt_quiet = λ fd s. still s;
  drop_quiet = λ fd s. still s;
  tcsetattr_quiet = λ fd t s. still s;
  line_quiet = λ t s. still s;
  flush_quiet = still;
  signal_quiet = λ sig s. still s;
  listen_quiet = λ a s. still s;
  spawn_quiet = λ exec p s. still s;
  cables_quiet = λ w v a b s. still s;
  preset_quiet = λ dev w v p s. still s;
  child_quiet = λ w v p s. still s;
  bridge_quiet = λ w r p s. still s;
  consumers_quiet = λ fd ws ps s. still s;
}

abbrev no_wire : WireArgs scaled.F
no_wire = record {
  baud_sim = none;
  latency = none;
  jitter = none;
  drop = none;
  corrupt = none;
  seed = none;
}

abbrev child_cli : Cli scaled.F
child_cli = record {
  json = false;
  wire = no_wire;
  cmd = sim none (some (codes "/p")) (codes "dev" ∷ []);
}

abbrev no_paths : Paths
no_paths p = text_eq p (codes "/q")

main-released_example :
    (no_paths (codes "/q") ≡ true) ⊎ ((path : Text) × (codes "/q" ≡ sidecar path)) ⊎ (true ≡ false)
unfolding scaled main exit_code sim_run ◌then_◌ ensure create with_link claim_link claim install
    announce or_panic build_pair new byte_time_of resolve_seed exec_result clamp_byte
    folder-HasDirectory drop_link
main-released_example =
    main-released scaled shown_json machine folder-HasDirectory machine-IsQuiet child_cli no_paths 7
      (codes "/q") refl refl

abbrev lone_link : Cli scaled.F
lone_link = record { json = false; wire = no_wire; cmd = pair (codes "/p" ∷ []) }

main-refusal_example : main scaled shown_json machine lone_link no_paths ≡ (no_paths, some 2)
main-refusal_example = main-refusal scaled shown_json machine lone_link no_paths 2 refl

IsSetup-failure_code_example :
    IsSetup (create ptys no_paths).1
    × IsSetup (claim_link machine (some (codes "/q")) (codes "sim") (codes "/dev/pts/1") no_paths).1
    × IsSetup (open_path no_tty (codes "/dev/ttyUSB0") 13 no_paths).1
IsSetup-failure_code_example =
    IsSetup-failure_code machine (some (codes "/q")) (codes "sim") (codes "/dev/pts/1")
      (codes "/dev/ttyUSB0") 13 no_paths
