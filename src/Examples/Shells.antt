-- ===== src/Examples/Shells.antt =====
-- The two shells at a few commands.
use ttyforge.Common.{Bytes, codes, ◌≡◌, refl, some, List, [], ◌∷◌, ◌++◌}
use ttyforge.Common.Text.{Text, utf8, join}
use ttyforge.Common.Decimal.{decimal}
use ttyforge.Sim.Line.{followed}
use ttyforge.Sim.Shell.Env.{insert}
use ttyforge.Sim.Shell.Words.{expand_words}
use ttyforge.Sim.Shell.Words.Quoting.{quoted_line, expand_words-quoted_line}
use ttyforge.Sim.Shell.Handler.{
  uboot, uboot_shell, ShellHandler, posix, binding, run_words, run_one, run_all, on_line,
}
use ttyforge.Sim.Shell.Handler.Status.{run_all-status}
use ttyforge.Sim.Shell.Handler.Variables.{printenv-setenv, Keeps, on_line-total}

abbrev two_words : List Text
two_words = codes "a $b" ∷ [] ∷ []

expand_words-quoted_line_example :
    expand_words [] (codes "0") (quoted_line two_words) ≡ some two_words
expand_words-quoted_line_example =
    expand_words-quoted_line [] (codes "0") two_words ((refl, (refl, (refl, (refl, tt)))), (tt, tt))

run_all-status_example :
    run_all posix (codes "false" ∷ codes "echo $?" ∷ [])
    ≡ followed
        (run_one posix (codes "false"))
        (λ h'. some (record h' { last_status = 0 }, utf8 (decimal h'.last_status) ++ codes "\r\n"))
run_all-status_example = run_all-status posix (codes "false")

printenv-setenv_example :
    run_words
      (run_words uboot (codes "setenv" ∷ codes "ip" ∷ codes "10" ∷ codes "0" ∷ [])).0
      (codes "printenv" ∷ codes "ip" ∷ [])
    ≡ (
      record uboot { env = insert (codes "ip") (codes "10 0") uboot.env; last_status = 0 },
      binding (codes "ip") (codes "10 0"),
    )
unfolding uboot join
printenv-setenv_example = printenv-setenv uboot (codes "ip") (codes "10") (codes "0" ∷ []) refl

abbrev one_variable : ShellHandler
one_variable = record {
  kind = uboot_shell;
  env = (codes "arch", codes "sandbox") ∷ [];
  last_status = 0;
}

on_line-total_example :
    (r : ShellHandler × Bytes) × (on_line one_variable (codes "printenv; \"") ≡ some r)
    × Keeps one_variable r.0
on_line-total_example = on_line-total one_variable (codes "printenv; \"")
