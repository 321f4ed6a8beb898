-- ===== src/Serial.antt =====
-- The speed tables of src/forge/serial.rs. The codes are the platform's: `code b` is `libc::B<b>`.
pub mod Speeds
pub mod Device
use ttyforge.Common.{
  ◌==◌, if◌then◌else◌, ℕ, ◌%◌, ◌^◌, Bool, true, false, Option, none, some, List, [], ◌∷◌, ◌++◌,
}

-- The platform: its codes, and whether it is Linux.
pub record Platform : Type 0 where
  pub code : ℕ → ℕ
  pub is_linux : Bool

-- The rates of `COMMON`, and of Linux's `EXTRA`.
abbrev pub common_rates : List ℕ
common_rates =
    0 ∷ 50 ∷ 75 ∷ 110 ∷ 134 ∷ 150 ∷ 200 ∷ 300 ∷ 600 ∷ 1_200 ∷ 1_800 ∷ 2_400 ∷ 4_800 ∷ 9_600 ∷ 19_200
    ∷ 38_400 ∷ 57_600 ∷ 115_200 ∷ 230_400 ∷ []

abbrev pub linux_rates : List ℕ
linux_rates =
    460_800 ∷ 500_000 ∷ 576_000 ∷ 921_600 ∷ 1_000_000 ∷ 1_152_000 ∷ 1_500_000 ∷ 2_000_000 ∷ []

module _ (p : Platform) where
  unfoldable pub rates : List ℕ
  rates = if p.is_linux then common_rates ++ linux_rates else common_rates

  -- `find` by the code, over the table of a list of rates.
  unfoldable pub find_code : List ℕ → ℕ → Option ℕ
  find_code [] speed = none
  find_code (b ∷ bs) speed =
      let rest = find_code bs speed in if p.code b == speed then some b else rest

  unfoldable pub find_baud : List ℕ → ℕ → Option ℕ
  find_baud [] baud = none
  find_baud (b ∷ bs) baud =
      let rest = find_baud bs baud in if b == baud then some (p.code b) else rest

  -- `baud_of`; an unknown code is cast to `u32`.
  unfoldable pub baud_of : ℕ → ℕ
  unfolding find_code rates
  baud_of speed = elim (find_code rates speed) [ some b ↦ b | none ↦ speed % 2 ^ 32 ]

  -- `speed_of`, from what the table gives on.
  unfoldable pub listed_or_any : Option ℕ → ℕ → Option ℕ
  listed_or_any (some c) baud = some c
  listed_or_any none baud = if p.is_linux then none else some baud

  unfoldable pub speed_of : ℕ → Option ℕ
  unfolding find_baud rates listed_or_any
  speed_of baud = listed_or_any (find_baud rates baud) baud

  -- `check_baud`: whether it is `Ok`.
  unfoldable pub check_baud : ℕ → Bool
  unfolding speed_of
  check_baud baud = elim (speed_of baud) [ some c ↦ true | none ↦ false ]
