-- ===== src/Sim/Shell/Handler/Status.antt =====
-- A line always ends; what a command leaves in the status, and `$?`.
use ttyforge.Common.{
  codes, text_eq, ℕ, ◌≡◌, refl, Bool, false, ◌&&◌, ◌||◌, some, List, [], ◌∷◌, ◌++◌, append-nil,
  arith,
}
use ttyforge.Common.Text.{Text, utf8, is_whitespace, join}
use ttyforge.Common.Decimal.{decimal, decimal-cons}
use ttyforge.Sim.Line.{followed}
use ttyforge.Sim.Shell.Env.{Env}
use ttyforge.Sim.Shell.Words.{
  take_name, expand_dollar, take_single, double_fuel, take_double, words_fuel, expand_words,
}
use ttyforge.Sim.Shell.Handler.{
  posix_shell, ShellHandler, unknown, dispatch, run_words, run_one, run_all,
}

-- The head of a command that the POSIX shell has.
abbrev pub is_builtin : Text → Bool
is_builtin head =
    text_eq head (codes "echo") || (text_eq head (codes "true") || text_eq head (codes "false"))

parts : (a b c : Bool) → (a || (b || c)) ≡ false → (a ≡ false) × (b ≡ false) × (c ≡ false)
parts a b c h = ground arith

and_false : (a : Bool) → (a && false) ≡ false
and_false a = ground arith

-- Any other head: 127 and a complaint that names it.
pub run_words-unknown :
    (h : ShellHandler) (head : Text) (args : List Text)
    → h.kind ≡ posix_shell
    → is_builtin head ≡ false
    → run_words h (head ∷ args) ≡ (
      record h { last_status = 127 },
      utf8 (codes "sh: " ++ (head ++ codes ": command not found\r\n")),
    )
unfolding run_words dispatch unknown
run_words-unknown h head args k b =
    let (e, t, f) =
      parts (text_eq head (codes "echo")) (text_eq head (codes "true"))
        (text_eq head (codes "false")) b in
    rw
      (
        k,
        e,
        t,
        f,
        and_false (text_eq head (codes "printenv")),
        and_false (text_eq head (codes "setenv")),
        and_false (text_eq head (codes "version")),
      )
      refl

-- The command `echo $?` has the status in its words.
expand_words-status :
    (env : Env) (d : ℕ) (ds : Text)
    → expand_words env (d ∷ ds) (codes "echo $?") ≡ some (codes "echo" ∷ (d ∷ ds) ∷ [])
unfolding expand_words words_fuel take_single take_double double_fuel expand_dollar take_name
    is_whitespace
expand_words-status env d ds = refl

run_one-status :
    (h : ShellHandler)
    → run_one h (codes "echo $?")
      ≡ some (record h { last_status = 0 }, utf8 (decimal h.last_status) ++ codes "\r\n")
unfolding run_one run_words dispatch join
run_one-status h =
    let (d, ds, e) = decimal-cons h.last_status in rw (e, expand_words-status h.env d ds) refl

run_last :
    (h : ShellHandler)
    → run_all h (codes "echo $?" ∷ [])
      ≡ some (record h { last_status = 0 }, utf8 (decimal h.last_status) ++ codes "\r\n")
unfolding run_all
run_last h = rw (run_one-status h, append-nil (utf8 (decimal h.last_status) ++ codes "\r\n")) refl

-- Behind any command, `echo $?` prints the status that the command left, and leaves 0: it is
-- expanded when it runs, not when the line is read.
pub run_all-status :
    (h : ShellHandler) (c : Text)
    → run_all h (c ∷ codes "echo $?" ∷ [])
      ≡ followed (run_one h c) (λ h'.
        some (record h' { last_status = 0 }, utf8 (decimal h'.last_status) ++ codes "\r\n"))
unfolding run_all
run_all-status h c = λ i. followed (run_one h c) (λ h'. run_last h' i)
