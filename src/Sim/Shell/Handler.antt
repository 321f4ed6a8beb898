-- ===== src/Sim/Shell/Handler.antt =====
-- `ShellHandler` of src/forge/sim.rs: the commands of the two shells.
pub mod Status
pub mod Variables
use ttyforge.Common.{
  if◌then◌else◌, Bytes, codes, text_eq, ◌>>=◌, ℕ, ◌+◌, Bool, true, false, ◌&&◌, Option, none, some,
  List, [], ◌∷◌, ◌++◌,
}
use ttyforge.Common.Text.{Text, utf8, byte_len, join}
use ttyforge.Common.Decimal.{decimal}
use ttyforge.Sim.Line.{LineHandler, followed}
use ttyforge.Sim.Shell.Env.{Env, get, insert, remove}
use ttyforge.Sim.Shell.Words.{expand_words}
use ttyforge.Sim.Shell.Commands.{split_commands}

pub data ShellKind : Type 0 where
  posix_shell : ShellKind
  uboot_shell : ShellKind

pub record ShellHandler : Type 0 where
  pub kind : ShellKind
  pub env : Env
  pub last_status : ℕ

unfoldable pub posix : ShellHandler
posix = record { kind = posix_shell; env = []; last_status = 0 }

unfoldable pub collect : List (Text × Text) → Env
unfolding insert
collect [] = []
collect ((k, v) ∷ kvs) = insert k v (collect kvs)

unfoldable pub uboot : ShellHandler
unfolding collect
uboot = record {
  kind = uboot_shell;
  env = collect (
      (codes "arch", codes "sandbox")
      ∷ (codes "baudrate", codes "115200")
      ∷ (codes "board", codes "ttyforge-sim")
      ∷ (codes "bootcmd", codes "echo Hello from ttyforge")
      ∷ (codes "bootdelay", codes "2")
      ∷ (codes "stdin", codes "serial")
      ∷ (codes "stdout", codes "serial")
      ∷ (codes "stderr", codes "serial")
      ∷ []);
  last_status = 0;
}

-- `format!("{k}={v}\r\n")`
abbrev pub binding : Text → Text → Bytes
binding k v = utf8 (k ++ (codes "=" ++ (v ++ codes "\r\n")))

abbrev pub undefined : Text → Bytes
undefined name = utf8 (codes "## Error: \"" ++ (name ++ codes "\" not defined\r\n"))

unfoldable pub env_lines : Env → Bytes
env_lines [] = []
env_lines ((k, v) ∷ m) = binding k v ++ env_lines m

unfoldable pub env_size : Env → ℕ
env_size [] = 0
env_size ((k, v) ∷ m) = byte_len k + byte_len v + 2 + env_size m

-- `printenv` without a name.
unfoldable pub print_all : Env → Bytes
unfolding env_lines env_size
print_all m =
    env_lines m
    ++ (codes "\r\nEnvironment size: " ++ (decimal (env_size m) ++ codes "/8188 bytes\r\n"))

-- `printenv` of names: the status, 1 once a name is missing, and the output.
unfoldable pub print_names : Env → ℕ → List Text → ℕ × Bytes
unfolding get
print_names m status [] = (status, [])
print_names m status (n ∷ ns) = elim (get n m) [
  | some v ↦ let (s, out) = print_names m status ns in (s, binding n v ++ out)
  | none ↦ let (s, out) = print_names m 1 ns in (s, undefined n ++ out)
]

-- `setenv`: the environment behind it.
unfoldable pub set_variable : Env → List Text → Env
unfolding insert remove
set_variable m [] = m
set_variable m (name ∷ []) = remove name m
set_variable m (name ∷ v ∷ vs) = insert name (join (codes " ") (v ∷ vs)) m

unfoldable pub unknown : ShellHandler → Text → ShellHandler × Bytes
unknown h other = elim h.kind [
  | posix_shell ↦ (
    record h { last_status = 127 },
    utf8 (codes "sh: " ++ (other ++ codes ": command not found\r\n")),
  )
  | uboot_shell ↦ (
    record h { last_status = 1 },
    utf8 (codes "Unknown command '" ++ (other ++ codes "' - try 'help'\r\n")),
  )
]

unfoldable pub printenv : ShellHandler → List Text → ShellHandler × Bytes
unfolding print_all print_names
printenv h [] = (record h { last_status = 0 }, print_all h.env)
printenv h (n ∷ ns) =
    let (s, out) = print_names h.env 0 (n ∷ ns) in (record h { last_status = s }, out)

abbrev pub is_uboot : ShellKind → Bool
is_uboot posix_shell = false
is_uboot uboot_shell = true

-- The `match` of `run_one`, on the head and the words behind it.
unfoldable pub dispatch : ShellHandler → Text → List Text → ShellHandler × Bytes
unfolding printenv set_variable unknown
dispatch h head args =
    if text_eq head (codes "echo")
    then (record h { last_status = 0 }, utf8 (join (codes " ") args) ++ codes "\r\n")
    else if text_eq head (codes "true")
    then (record h { last_status = 0 }, [])
    else if text_eq head (codes "false")
    then (record h { last_status = 1 }, [])
    else if text_eq head (codes "printenv") && is_uboot h.kind
    then printenv h args
    else if text_eq head (codes "setenv") && is_uboot h.kind
    then (record h { env = set_variable h.env args; last_status = 0 }, [])
    else if text_eq head (codes "version") && is_uboot h.kind
    then (record h { last_status = 0 }, codes "U-Boot 2024.01-ttyforge-sim\r\n\r\n")
    else unknown h head

unfoldable pub run_words : ShellHandler → List Text → ShellHandler × Bytes
unfolding dispatch
run_words h [] = (h, [])
run_words h (head ∷ args) = dispatch h head args

unfoldable pub run_one : ShellHandler → Text → Option (ShellHandler × Bytes)
unfolding run_words
run_one h cmd = do words ← expand_words h.env (decimal h.last_status) cmd; some (run_words h words)

unfoldable pub prompt : ShellHandler → Bytes
prompt h = elim h.kind [ posix_shell ↦ codes "$ " | uboot_shell ↦ codes "=> " ]

unfoldable pub run_all : ShellHandler → List Text → Option (ShellHandler × Bytes)
unfolding run_one
run_all h [] = some (h, [])
run_all h (c ∷ cs) = followed (run_one h c) (λ h'. run_all h' cs)

unfoldable pub on_line : ShellHandler → Text → Option (ShellHandler × Bytes)
unfolding run_all
on_line h line = run_all h (split_commands line)

unfoldable pub shell_handler : LineHandler ShellHandler
unfolding on_line prompt
shell_handler = record { prompt = prompt; on_line = on_line }
