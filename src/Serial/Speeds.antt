-- ===== src/Serial/Speeds.antt =====
-- The two speed tables are one another's inverse.
use ttyforge.Common.{ℕ, ◌≡◌, refl, true, Option, none, some, List, [], ◌∷◌, arith}
use ttyforge.Serial.{Platform, rates, find_code, find_baud, baud_of, listed_or_any, speed_of}

-- The platform gives different rates different codes.
abbrev pub IsInjective : Platform → Type 0
IsInjective p = (a b : ℕ) → p.code a ≡ p.code b → a ≡ b

module _ (p : Platform) where
  -- A rate found in a table is the one found back from its code.
  find_round :
      (bs : List ℕ) (baud c : ℕ)
      → IsInjective p
      → find_baud p bs baud ≡ some c
      → (c ≡ p.code baud) × (find_code p bs c ≡ some baud)
  unfolding find_baud find_code
  find_round [] baud c inj h = cc
  find_round (b ∷ bs) baud c inj h = ground (arith, inj b baud, find_round bs baud c inj)

  listed_linux :
      (o : Option ℕ) (baud c : ℕ) → p.is_linux ≡ true → listed_or_any p o baud ≡ some c → o ≡ some c
  unfolding listed_or_any
  listed_linux (some d) baud c l h = h
  listed_linux none baud c l h = ground (arith, l)

  -- On Linux, a rate that has a code is read back from it, where the platform's codes are
  -- different: relaying a consumer's speed neither loses nor changes it.
  pub baud_of-speed_of :
      (baud c : ℕ)
      → p.is_linux ≡ true
      → IsInjective p
      → speed_of p baud ≡ some c
      → baud_of p c ≡ baud
  unfolding baud_of speed_of
  baud_of-speed_of baud c l inj h =
      let found = listed_linux (find_baud p (rates p) baud) baud c l h in
      rw (baud_of, (find_round (rates p) baud c inj found).1) refl
