-- ===== src/Sim/Shell/Words/Totality.antt =====
-- The fuel of `expand_words` is enough: each skip ahead leaves a shorter text.
use ttyforge.Common.{
  ◌==◌, Bool-cases, length, ℕ, zero, suc, ◌≤◌, ◌<◌, ◌≡◌, refl, inl, inr, true, Option, some, List,
  [], ◌∷◌, ◌++◌, arith,
}
use ttyforge.Common.Text.{Text, is_whitespace}
use ttyforge.Sim.Shell.Env.{Env}
use ttyforge.Sim.Shell.Words.{
  single_quote, double_quote, is_name_char, take_name, expand_dollar, take_single, double_fuel,
  take_double, Reader, finished, next_word, append_quoted, append_bare, words_fuel, fresh,
  expand_words,
}

pub take_name-le : (t : Text) → length (take_name t).1 ≤ length t
unfolding take_name
take_name-le [] = omega arith
take_name-le (c ∷ cs) = elim (Bool-cases (is_name_char c)) [
  | inl e ↦ rw e (omega (arith, take_name-le cs))
  | inr n ↦ rw n (omega arith)
]

pub take_single-le : (t : Text) → length (take_single t).1 ≤ length t
unfolding take_single
take_single-le [] = omega arith
take_single-le (c ∷ cs) = elim (Bool-cases (c == single_quote)) [
  | inl e ↦ rw e (omega arith)
  | inr n ↦ rw n (omega (arith, take_single-le cs))
]

pub expand_dollar-le :
    (env : Env) (status t : Text) → length (expand_dollar env status t).1 ≤ length t
unfolding expand_dollar
expand_dollar-le env status [] = omega arith
expand_dollar-le env status (c ∷ cs) = elim (Bool-cases (c == b'?')) [
  | inl e ↦ rw e (omega arith)
  | inr n ↦ elim (Bool-cases (is_name_char c)) [
    | inl e ↦ rw (n, e) (omega (arith, take_name-le cs))
    | inr m ↦ rw (n, m) (omega arith)
  ]
]

-- A reading that ends, with what is left.
abbrev Ends : Option (Text × Text) → ℕ → Type 0
Ends o n = (d : Text × Text) × (o ≡ some d) × (length d.1 ≤ n)

Ends-le : (o : Option (Text × Text)) (m n : ℕ) → m ≤ n → Ends o m → Ends o n
Ends-le o m n h (d, e, l) = (d, e, omega (arith, h, l))

double_fuel-Ends :
    (f : ℕ) (env : Env) (status cur rest : Text)
    → length rest < f
    → Ends (double_fuel f env status cur rest) (length rest)
unfolding double_fuel
double_fuel-Ends zero env status cur rest h = absurd (omega (arith, h))
double_fuel-Ends (suc f) env status cur [] h = ((cur, []), refl, omega arith)
double_fuel-Ends (suc f) env status cur (c ∷ cs) h = elim (Bool-cases (c == double_quote)) [
  | inl e ↦ rw e ((cur, cs), refl, omega arith)
  | inr n ↦ elim (Bool-cases (c == b'$')) [
    | inl e ↦
        rw (n, e)
          (Ends-le _ _ _ (omega (arith, expand_dollar-le env status cs)) (
            double_fuel-Ends f env status (cur ++ (expand_dollar env status cs).0)
              (expand_dollar env status cs).1 (omega (arith, h, expand_dollar-le env status cs))))
    | inr m ↦
        rw (n, m)
          (Ends-le _ _ _ (omega arith)
            (double_fuel-Ends f env status (cur ++ c ∷ []) cs (omega (arith, h))))
  ]
]

pub take_double-Ends :
    (env : Env) (status cur rest : Text) → Ends (take_double env status cur rest) (length rest)
unfolding take_double
take_double-Ends env status cur rest =
    double_fuel-Ends (suc (length rest)) env status cur rest (omega arith)

abbrev IsSome : Option (List Text) → Type 0
IsSome o = (ws : List Text) × (o ≡ some ws)

words_fuel-IsSome :
    (f : ℕ) (env : Env) (status : Text) (r : Reader) (rest : Text)
    → length rest < f
    → IsSome (words_fuel f env status r rest)
unfolding words_fuel
words_fuel-IsSome zero env status r rest h = absurd (omega (arith, h))
words_fuel-IsSome (suc f) env status r [] h = (finished r, refl)
words_fuel-IsSome (suc f) env status r (c ∷ cs) h = elim (Bool-cases (is_whitespace c)) [
  | inl e ↦ rw e (words_fuel-IsSome f env status (next_word r) cs (omega (arith, h)))
  | inr w ↦ elim (Bool-cases (c == single_quote)) [
    | inl e ↦
        rw (w, e)
          (words_fuel-IsSome f env status (append_quoted r (take_single cs).0) (take_single cs).1
            (omega (arith, h, take_single-le cs)))
    | inr s ↦ elim (Bool-cases (c == double_quote)) [
      | inl e ↦
          rw (w, s, e)
            (let (d, t, l) = take_double-Ends env status r.cur cs in
              rw t (
                words_fuel-IsSome f env status (record r { cur = d.0; has_content = true }) d.1
                  (omega (arith, h, l))))
      | inr d ↦ elim (Bool-cases (c == b'$')) [
        | inl e ↦
            rw (w, s, d, e)
              (words_fuel-IsSome f env status (append_bare r (expand_dollar env status cs).0)
                (expand_dollar env status cs).1 (omega (arith, h, expand_dollar-le env status cs)))
        | inr o ↦
            rw (w, s, d, o)
              (words_fuel-IsSome f env status (append_quoted r (c ∷ [])) cs (omega (arith, h)))
      ]
    ]
  ]
]

-- Reading a command into words always ends with words.
pub expand_words-total :
    (env : Env) (status cmd : Text) → (ws : List Text) × (expand_words env status cmd ≡ some ws)
unfolding expand_words
expand_words-total env status cmd =
    words_fuel-IsSome (suc (length cmd)) env status fresh cmd (omega arith)
