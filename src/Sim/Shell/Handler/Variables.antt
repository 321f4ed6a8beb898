-- ===== src/Sim/Shell/Handler/Variables.antt =====
-- The shells' variables: what `setenv` stores `printenv` and `$name` read, and the store stays in
-- the order of its names.
use ttyforge.Common.{
  Bool-cases, Bytes, codes, text_eq, text_eq_refl, ℕ, ◌≡◌, refl, ◌∙◌, inl, inr, ◌&&◌, some, List,
  [], ◌∷◌, ◌++◌, append-nil,
}
use ttyforge.Common.Text.{Text, join}
use ttyforge.Common.Decimal.{decimal}
use ttyforge.Sim.Shell.Env.{
  Env, insert, remove, IsSorted, get-insert, get-remove, insert-IsSorted, remove-IsSorted,
}
use ttyforge.Sim.Shell.Words.Totality.{expand_words-total}
use ttyforge.Sim.Shell.Commands.{split_commands}
use ttyforge.Sim.Shell.Handler.{
  ShellKind, posix_shell, uboot_shell, ShellHandler, binding, undefined, print_names, set_variable,
  unknown, printenv, is_uboot, dispatch, run_words, run_one, run_all, on_line,
}

set_variable-IsSorted : (m : Env) (args : List Text) → IsSorted m → IsSorted (set_variable m args)
unfolding set_variable
set_variable-IsSorted m [] h = h
set_variable-IsSorted m (n ∷ []) h = remove-IsSorted n m h
set_variable-IsSorted m (n ∷ v ∷ vs) h = insert-IsSorted n (join (codes " ") (v ∷ vs)) m h

print_names-insert :
    (name v : Text) (m : Env) → print_names (insert name v m) 0 (name ∷ []) ≡ (0, binding name v)
unfolding print_names
print_names-insert name v m =
    rw (print_names, get-insert name name v m, text_eq_refl name, append-nil (binding name v)) refl

print_names-remove :
    (name : Text) (m : Env)
    → IsSorted m
    → print_names (remove name m) 0 (name ∷ []) ≡ (1, undefined name)
unfolding print_names
print_names-remove name m s =
    rw (print_names, get-remove name name m s, text_eq_refl name, append-nil (undefined name)) refl

-- In U-Boot, `setenv name v vs…` and then `printenv name` print the value, the words joined by
-- blanks, and leave it stored with status 0.
pub printenv-setenv :
    (h : ShellHandler) (name v : Text) (vs : List Text)
    → h.kind ≡ uboot_shell
    → run_words (run_words h (codes "setenv" ∷ name ∷ v ∷ vs)).0 (codes "printenv" ∷ name ∷ []) ≡ (
      record h { env = insert name (join (codes " ") (v ∷ vs)) h.env; last_status = 0 },
      binding name (join (codes " ") (v ∷ vs)),
    )
unfolding run_words dispatch printenv set_variable
printenv-setenv h name v vs k =
    rw (k, print_names-insert name (join (codes " ") (v ∷ vs)) h.env) refl

-- In U-Boot, after `setenv name` alone `printenv name` says that the name is not defined, with
-- status 1, where the variables are in the order of their names.
pub printenv-unset :
    (h : ShellHandler) (name : Text)
    → h.kind ≡ uboot_shell
    → IsSorted h.env
    → run_words (run_words h (codes "setenv" ∷ name ∷ [])).0 (codes "printenv" ∷ name ∷ [])
      ≡ (record h { env = remove name h.env; last_status = 1 }, undefined name)
unfolding run_words dispatch printenv set_variable
printenv-unset h name k s = rw (k, print_names-remove name h.env s) refl

-- A step of the shell keeps its kind and the order of the variables.
abbrev pub Keeps : ShellHandler → ShellHandler → Type 0
Keeps h h' = (h'.kind ≡ h.kind) × (IsSorted h.env → IsSorted h'.env)

unknown-Keeps :
    (k : ShellKind) (m : Env) (status : ℕ) (head : Text)
    → Keeps
        (record { kind = k; env = m; last_status = status })
        (unknown (record { kind = k; env = m; last_status = status }) head).0
unfolding unknown
unknown-Keeps posix_shell m status head = (refl, λ s. s)
unknown-Keeps uboot_shell m status head = (refl, λ s. s)

printenv-Keeps : (h : ShellHandler) (args : List Text) → Keeps h (printenv h args).0
unfolding printenv
printenv-Keeps h [] = (refl, λ s. s)
printenv-Keeps h (n ∷ ns) = (refl, λ s. s)

run_words-Keeps : (h : ShellHandler) (ws : List Text) → Keeps h (run_words h ws).0
unfolding run_words dispatch
run_words-Keeps h [] = (refl, λ s. s)
run_words-Keeps h (head ∷ args) = elim (Bool-cases (text_eq head (codes "echo"))) [
  | inl e ↦ rw e (refl, λ s. s)
  | inr n ↦ rw n (elim (Bool-cases (text_eq head (codes "true"))) [
    | inl e ↦ rw e (refl, λ s. s)
    | inr n ↦ rw n (elim (Bool-cases (text_eq head (codes "false"))) [
      | inl e ↦ rw e (refl, λ s. s)
      | inr n ↦ rw n (elim (Bool-cases (text_eq head (codes "printenv") && is_uboot h.kind)) [
        | inl e ↦ rw e (printenv-Keeps h args)
        | inr n ↦ rw n (elim (Bool-cases (text_eq head (codes "setenv") && is_uboot h.kind)) [
          | inl e ↦ rw e (refl, set_variable-IsSorted h.env args)
          | inr n ↦ rw n (elim (Bool-cases (text_eq head (codes "version") && is_uboot h.kind)) [
            | inl e ↦ rw e (refl, λ s. s)
            | inr n ↦ rw n (unknown-Keeps h.kind h.env h.last_status head)
          ])
        ])
      ])
    ])
  ])
]

run_one-total :
    (h : ShellHandler) (cmd : Text)
    → (r : ShellHandler × Bytes) × (run_one h cmd ≡ some r) × Keeps h r.0
unfolding run_one
run_one-total h cmd =
    let (ws, e) = expand_words-total h.env (decimal h.last_status) cmd in
    (run_words h ws, rw e refl, run_words-Keeps h ws)

run_all-total :
    (h : ShellHandler) (cs : List Text)
    → (r : ShellHandler × Bytes) × (run_all h cs ≡ some r) × Keeps h r.0
unfolding run_all
run_all-total h [] = ((h, []), refl, (refl, λ s. s))
run_all-total h (c ∷ cs) =
    let (r, e, k) = run_one-total h c in
    let (t, d, l) = run_all-total r.0 cs in
    ((t.0, r.1 ++ t.1), rw (e, d) refl, (l.0 ∙ k.0, λ s. l.1 (k.1 s)))

-- Either shell answers every line, whatever is in it: reading its words always ends. The shell
-- stays the shell it is, and its variables stay in the order of their names if they were.
pub on_line-total :
    (h : ShellHandler) (line : Text)
    → (r : ShellHandler × Bytes) × (on_line h line ≡ some r) × Keeps h r.0
unfolding on_line
on_line-total h line = run_all-total h (split_commands line)
