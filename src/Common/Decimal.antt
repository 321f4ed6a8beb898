-- ===== src/Common/Decimal.antt =====
-- Decimal numerals as Rust prints and reads them (`to_string`, and the digits of `str::parse`).
use ttyforge.Common.{
  ℕ, zero, suc, ◌+◌, ◌-◌, ◌*◌, ◌/◌, ◌%◌, ◌<◌, ◌≡◌, Bool, ◌&&◌, Option, none, some, [], ◌∷◌, arith,
  refl, true, All, Bytes, ltb, leb, if◌then◌else◌, Bool-cases, inl, inr,
}

-- Digits in front of `acc`; the fuel bounds how many.
unfoldable pub digits_onto : ℕ → ℕ → Bytes → Bytes
digits_onto zero n acc = acc
digits_onto (suc f) n acc =
    let rest = digits_onto f (n / 10) ((b'0' + n % 10) ∷ acc) in
    if ltb n 10 then (b'0' + n) ∷ acc else rest

unfoldable pub decimal : ℕ → Bytes
unfolding digits_onto
decimal n = digits_onto (suc n) n []

abbrev pub is_digit : ℕ → Bool
is_digit c = leb b'0' c && leb c b'9'

-- The value of a run of digits after those read as `acc`; none at a byte that is no digit.
unfoldable pub digits_value : ℕ → Bytes → Option ℕ
digits_value acc [] = some acc
digits_value acc (c ∷ cs) =
    let rest = digits_value (acc * 10 + (c - b'0')) cs in if is_digit c then rest else none

pub digits_value-digits_onto :
    (f n : ℕ) (rest : Bytes) → n < f → digits_value 0 (digits_onto f n rest) ≡ digits_value n rest
unfolding digits_onto digits_value
digits_value-digits_onto zero n rest h = elim h [ ]
digits_value-digits_onto (suc f) n rest h = elim (Bool-cases (ltb n 10)) [
  | inl small ↦ rw small (ground arith)
  | inr large ↦
      rw large (ground (arith, digits_value-digits_onto f (n / 10) ((b'0' + n % 10) ∷ rest)))
]

pub digits_value-decimal : (n : ℕ) → digits_value 0 (decimal n) ≡ some n
unfolding decimal digits_value
digits_value-decimal n = digits_value-digits_onto (suc n) n [] (omega arith)

-- A numeral is not empty.
digits_onto-cons :
    (f n d : ℕ) (acc : Bytes) → (e : ℕ) × (es : Bytes) × (digits_onto f n (d ∷ acc) ≡ e ∷ es)
unfolding digits_onto
digits_onto-cons zero n d acc = (d, acc, refl)
digits_onto-cons (suc f) n d acc = elim (Bool-cases (ltb n 10)) [
  | inl e ↦ rw e (b'0' + n, d ∷ acc, refl)
  | inr l ↦ rw l (digits_onto-cons f (n / 10) (b'0' + n % 10) (d ∷ acc))
]

pub decimal-cons : (n : ℕ) → (d : ℕ) × (ds : Bytes) × (decimal n ≡ d ∷ ds)
unfolding decimal digits_onto
decimal-cons n = elim (Bool-cases (ltb n 10)) [
  | inl e ↦ rw e (b'0' + n, [], refl)
  | inr l ↦ rw l (digits_onto-cons n (n / 10) (b'0' + n % 10) [])
]

-- A numeral has digits only.
abbrev pub IsDigits : Bytes → Type 0
IsDigits = All (λ c. is_digit c ≡ true)

digits_onto-IsDigits : (f n : ℕ) (acc : Bytes) → IsDigits acc → IsDigits (digits_onto f n acc)
unfolding digits_onto
digits_onto-IsDigits zero n acc h = h
digits_onto-IsDigits (suc f) n acc h = elim (Bool-cases (ltb n 10)) [
  | inl e ↦ rw e (ground (arith, h), h)
  | inr l ↦ rw l (digits_onto-IsDigits f (n / 10) ((b'0' + n % 10) ∷ acc) (ground arith, h))
]

pub decimal-IsDigits : (n : ℕ) → IsDigits (decimal n)
unfolding decimal
decimal-IsDigits n = digits_onto-IsDigits (suc n) n [] tt
