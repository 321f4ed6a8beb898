-- ===== src/Sim/Shell/Words.antt =====
-- `expand_words` of src/forge/sim.rs. The peekable characters are the text still to be read; loops
-- that skip ahead in it take fuel, and `none` says that it ran out.
pub mod Totality
pub mod Quoting
use ttyforge.Common.{
  ◌==◌, if◌then◌else◌, length, is_empty, ◌>>=◌, ℕ, zero, suc, Bool, true, false, not, ◌||◌, Option,
  none, some, List, [], ◌∷◌, ◌++◌,
}
use ttyforge.Common.Text.{Text, is_whitespace, is_ascii_alphanumeric}
use ttyforge.Sim.Shell.Env.{Env, get}

abbrev pub single_quote : ℕ
single_quote = b'\''

abbrev pub double_quote : ℕ
double_quote = b'"'

abbrev pub is_name_char : ℕ → Bool
is_name_char c = is_ascii_alphanumeric c || c == b'_'

-- The longest run of name characters, and what follows it.
unfoldable pub take_name : Text → Text × Text
take_name [] = ([], [])
take_name (c ∷ cs) =
    let (name, rest) = take_name cs in if is_name_char c then (c ∷ name, rest) else ([], c ∷ cs)

abbrev pub or_empty : Option Text → Text
or_empty none = []
or_empty (some v) = v

-- `expand_dollar` behind a `$`: what it appends, and what is left to read.
unfoldable pub expand_dollar : Env → Text → Text → Text × Text
unfolding take_name get
expand_dollar env status [] = (b'$' ∷ [], [])
expand_dollar env status (c ∷ cs) =
    let (name, rest) = take_name (c ∷ cs) in
    if c == b'?'
    then (status, cs)
    else if is_name_char c
    then (or_empty (get name env), rest)
    else (b'$' ∷ [], c ∷ cs)

-- The text up to the closing single quote or the end, and what follows.
unfoldable pub take_single : Text → Text × Text
take_single [] = ([], [])
take_single (c ∷ cs) =
    let (q, rest) = take_single cs in if c == single_quote then ([], cs) else (c ∷ q, rest)

-- The loop inside double quotes: `cur` when the quote closes or the text ends, and what follows.
unfoldable pub double_fuel : ℕ → Env → Text → Text → Text → Option (Text × Text)
unfolding expand_dollar
double_fuel zero env status cur rest = none
double_fuel (suc f) env status cur [] = some (cur, [])
double_fuel (suc f) env status cur (c ∷ cs) =
    let (v, rest) = expand_dollar env status cs in
    let expanded = double_fuel f env status (cur ++ v) rest in
    let plain = double_fuel f env status (cur ++ c ∷ []) cs in
    if c == double_quote then some (cur, cs) else if c == b'$' then expanded else plain

unfoldable pub take_double : Env → Text → Text → Text → Option (Text × Text)
unfolding double_fuel
take_double env status cur rest = double_fuel (suc (length rest)) env status cur rest

-- The state of the outer loop.
pub record Reader : Type 0 where
  pub words : List Text
  pub cur : Text
  pub has_content : Bool

abbrev pub finished : Reader → List Text
finished r = if r.has_content then r.words ++ r.cur ∷ [] else r.words

-- At white space.
abbrev pub next_word : Reader → Reader
next_word r =
    if r.has_content
    then record { words = r.words ++ r.cur ∷ []; cur = []; has_content = false }
    else r

abbrev pub append_quoted : Reader → Text → Reader
append_quoted r t = record r { cur = r.cur ++ t; has_content = true }

-- A bare expansion is content only where it produced characters.
abbrev pub append_bare : Reader → Text → Reader
append_bare r v = record r { cur = r.cur ++ v; has_content = r.has_content || not (is_empty v) }

unfoldable pub words_fuel : ℕ → Env → Text → Reader → Text → Option (List Text)
unfolding take_single
words_fuel zero env status r rest = none
words_fuel (suc f) env status r [] = some (finished r)
words_fuel (suc f) env status r (c ∷ cs) =
    let at_space = words_fuel f env status (next_word r) cs in
    let (q, after) = take_single cs in
    let at_single = words_fuel f env status (append_quoted r q) after in
    let at_double = take_double env status r.cur cs >>= λ d.
    words_fuel f env status (record r { cur = d.0; has_content = true }) d.1 in
    let (v, behind) = expand_dollar env status cs in
    let at_dollar = words_fuel f env status (append_bare r v) behind in
    let at_other = words_fuel f env status (append_quoted r (c ∷ [])) cs in
    if is_whitespace c
    then at_space
    else if c == single_quote
    then at_single
    else if c == double_quote
    then at_double
    else if c == b'$'
    then at_dollar
    else at_other

abbrev pub fresh : Reader
fresh = record { words = []; cur = []; has_content = false }

-- `expand_words`; `status` is `last_status.to_string()`.
unfoldable pub expand_words : Env → Text → Text → Option (List Text)
unfolding words_fuel
expand_words env status cmd = words_fuel (suc (length cmd)) env status fresh cmd
