-- ===== src/Sim/Shell/Words/Quoting.antt =====
-- What the quotes of the shells protect.
use ttyforge.Common.{
  ◌==◌, length, length-append, All, ℕ, zero, suc, ◌<◌, ◌≡◌, refl, ap, ◌∙◌, true, false, some, List,
  [], ◌∷◌, ◌++◌, append-nil, append_assoc, arith,
}
use ttyforge.Common.Text.{Text, is_whitespace}
use ttyforge.Sim.Shell.Env.{Env}
use ttyforge.Sim.Shell.Words.{single_quote, take_single, words_fuel, fresh, expand_words}

-- A text that single quotes hold.
abbrev pub IsQuotable : Text → Type 0
IsQuotable = All (λ c. (c == single_quote) ≡ false)

abbrev pub quoted : Text → Text
quoted w = single_quote ∷ (w ++ single_quote ∷ [])

take_single-quoted :
    (w rest : Text) → IsQuotable w → take_single (w ++ single_quote ∷ rest) ≡ (w, rest)
unfolding take_single
take_single-quoted [] rest h = refl
take_single-quoted (c ∷ w) rest h = rw (take_single-quoted w rest h.1, h.0) refl

-- A quoted word at the start of a word, with what follows it.
words_fuel-quoted :
    (f : ℕ) (env : Env) (status : Text) (ws : List Text) (w rest : Text)
    → IsQuotable w
    → words_fuel
        (suc f)
        env
        status
        (record fresh { words = ws })
        (single_quote ∷ (w ++ single_quote ∷ rest))
      ≡ words_fuel f env status (record { words = ws; cur = w; has_content = true }) rest
unfolding words_fuel is_whitespace
words_fuel-quoted f env status ws w rest h = rw (take_single-quoted w rest h) refl

-- Quoted words with blanks between them.
unfoldable pub quoted_line : List Text → Text
quoted_line [] = []
quoted_line (w ∷ ws) = single_quote ∷ (w ++ single_quote ∷ b' ' ∷ quoted_line ws)

words_fuel-quoted_line :
    (f : ℕ) (env : Env) (status : Text) (pre ws : List Text)
    → length (quoted_line ws) < f
    → All IsQuotable ws
    → words_fuel f env status (record fresh { words = pre }) (quoted_line ws) ≡ some (pre ++ ws)
unfolding quoted_line words_fuel is_whitespace
words_fuel-quoted_line zero env status pre ws l h = absurd (omega (arith, l))
words_fuel-quoted_line (suc f) env status pre [] l h = rw (append-nil pre) refl
words_fuel-quoted_line (suc zero) env status pre (w ∷ ws) l h = absurd (omega (arith, l))
words_fuel-quoted_line (suc (suc f)) env status pre (w ∷ ws) l h =
    words_fuel-quoted (suc f) env status pre w (b' ' ∷ quoted_line ws) h.0
    ∙ words_fuel-quoted_line f env status (pre ++ w ∷ []) ws
        (omega (arith, l, length-append w (single_quote ∷ b' ' ∷ quoted_line ws))) h.1
    ∙ ap some (append_assoc pre (w ∷ []) ws)

-- Words in single quotes with blanks between them are read back exactly, whatever is in them but a
-- single quote: blanks, `$`, `;` and double quotes are not touched, and an empty word is a word.
pub expand_words-quoted_line :
    (env : Env) (status : Text) (ws : List Text)
    → All IsQuotable ws
    → expand_words env status (quoted_line ws) ≡ some ws
unfolding expand_words
expand_words-quoted_line env status ws h =
    words_fuel-quoted_line (suc (length (quoted_line ws))) env status [] ws (omega arith) h
