-- ===== src/Common/Bits.antt =====
-- Laws of `bit_xor` and `bit_or` at every width, from their meaning as a recursion on binary digits.
use ttyforge.Common.{
  ℕ, zero, suc, ◌+◌, ◌-◌, ◌*◌, ◌/◌, ◌%◌, ◌^◌, ◌≤◌, ◌<◌, ◌≡◌, refl, ap, ◌∙◌, ◌≢◌, arith,
}
use Prim.Native.Nat.{max, bit_or, bit_or-bitwise, bit_xor, digits, bit_xor-bitwise, differ, bitwise}
use native.Mathlib.Nat.{pow-suc}

module _ (f : ℕ → ℕ → ℕ) where
  -- One unit of fuel more, and any number of them, give the same digits.
  one_more : (n x y : ℕ) → x ≤ n → digits (λ z. z) f (suc n) x y ≡ digits (λ z. z) f n x y
  one_more zero zero y h = refl
  one_more zero (suc x) y h = absurd (omega (arith, h))
  one_more (suc n) zero y h = refl
  one_more (suc n) (suc x) y h = rw (one_more n (suc x / 2) (y / 2) (omega (arith, h)))

  more : (k n x y : ℕ) → x ≤ n → digits (λ z. z) f (k + n) x y ≡ digits (λ z. z) f n x y
  more zero n x y h = let e : 0 + n ≡ n = omega arith in ap (λ m. digits (λ z. z) f m x y) e
  more (suc k) n x y h =
      let e : suc k + n ≡ suc (k + n) = omega arith in
      ap (λ m. digits (λ z. z) f m x y) e ∙ one_more (k + n) x y (omega (arith, h)) ∙ more k n x y h

  half_fuel :
      (n y : ℕ) → digits (λ z. z) f n (suc n / 2) y ≡ digits (λ z. z) f (suc n / 2) (suc n / 2) y
  half_fuel n y =
      let e : n ≡ (n - suc n / 2) + suc n / 2 = omega arith in
      ap (λ m. digits (λ z. z) f m (suc n / 2) y) e
      ∙ more (n - suc n / 2) (suc n / 2) (suc n / 2) y (omega arith)

  bitwise_halved :
      (n y : ℕ)
      → bitwise (λ z. z) f (suc n) y
        ≡ bitwise (λ z. z) f (suc n / 2) (y / 2) * 2 + f (suc n % 2) (y % 2)
  bitwise_halved n y = omega (arith, half_fuel n (y / 2))

differ-bit : (a b : ℕ) → a < 2 → b < 2 → differ a b ≡ (a + b) % 2
differ-bit zero zero p q = refl
differ-bit zero (suc zero) p q = refl
differ-bit (suc zero) zero p q = refl
differ-bit (suc zero) (suc zero) p q = refl
differ-bit zero (suc (suc b)) p q = absurd (omega arith)
differ-bit (suc zero) (suc (suc b)) p q = absurd (omega arith)
differ-bit (suc (suc a)) b p q = absurd (omega arith)

differ_digits : (a b : ℕ) → differ (a % 2) (b % 2) ≡ (a + b) % 2
differ_digits a b = omega (arith, differ-bit (a % 2) (b % 2) (omega arith) (omega arith))

-- One equation for the lowest digit.
pub bit_xor_step : (a b : ℕ) → bit_xor a b ≡ bit_xor (a / 2) (b / 2) * 2 + (a + b) % 2
bit_xor_step zero b = simp bit_xor-bitwise (omega arith)
bit_xor_step (suc a) b = omega (
  arith,
  bit_xor-bitwise (suc a) b,
  bit_xor-bitwise (suc a / 2) (b / 2),
  bitwise_halved differ a b,
  differ_digits (suc a) b,
)

eq_of_bit_xor_fuel : (n a b : ℕ) → a ≤ n → b ≤ n → bit_xor a b ≡ 0 → a ≡ b
eq_of_bit_xor_fuel zero a b p q h = omega arith
eq_of_bit_xor_fuel (suc n) a b p q h = omega (
  arith,
  bit_xor_step a b,
  eq_of_bit_xor_fuel n (a / 2) (b / 2) (omega arith) (omega arith)
      (omega (arith, bit_xor_step a b)),
)

-- Only equal numbers cancel.
pub eq_of_bit_xor : (a b : ℕ) → bit_xor a b ≡ 0 → a ≡ b
eq_of_bit_xor a b h = eq_of_bit_xor_fuel (a + b) a b (omega arith) (omega arith) h

pub bit_xor-pos : (a b : ℕ) → a ≢ b → 0 < bit_xor a b
bit_xor-pos a b ne = grind (arith, eq_of_bit_xor a b)

pub bit_xor-lt : (k a b : ℕ) → a < 2 ^ k → b < 2 ^ k → bit_xor a b < 2 ^ k
bit_xor-lt zero a b p q =
    let ea : a ≡ 0 = omega arith in let eb : b ≡ 0 = omega arith in rw (ea, eb) (omega arith)
bit_xor-lt (suc k) a b p q = omega (
  arith,
  pow-suc 2 k,
  bit_xor_step a b,
  bit_xor-lt k (a / 2) (b / 2) (omega (arith, pow-suc 2 k)) (omega (arith, pow-suc 2 k)),
)

bit_xor_cancel_fuel : (n a b : ℕ) → a ≤ n → b ≤ n → bit_xor (bit_xor a b) b ≡ a
bit_xor_cancel_fuel zero a b p q =
    let ea : a ≡ 0 = omega arith in let eb : b ≡ 0 = omega arith in rw (ea, eb)
bit_xor_cancel_fuel (suc n) a b p q =
    let half : bit_xor a b / 2 ≡ bit_xor (a / 2) (b / 2) = omega (arith, bit_xor_step a b) in
    let ih : bit_xor (bit_xor (a / 2) (b / 2)) (b / 2) ≡ a / 2 =
      bit_xor_cancel_fuel n (a / 2) (b / 2) (omega arith) (omega arith) in
    omega (arith, bit_xor_step (bit_xor a b) b, bit_xor_step a b, rw (← half) at ih)

-- Flipping the same bits twice restores the number.
pub bit_xor_cancel : (a b : ℕ) → bit_xor (bit_xor a b) b ≡ a
bit_xor_cancel a b = bit_xor_cancel_fuel (a + b) a b (omega arith) (omega arith)

bit_or_halves : (x y : ℕ) → max (x % 2) (y % 2) + 2 * bit_or (x / 2) (y / 2) ≡ bit_or x y
bit_or_halves zero y = omega (arith, bit_or-bitwise zero y, bit_or-bitwise zero (y / 2))
bit_or_halves (suc x) y =
    omega
      (arith, bitwise_halved max x y, bit_or-bitwise (suc x / 2) (y / 2), bit_or-bitwise (suc x) y)

bit_or_absorbs_fuel :
    (n x a b : ℕ)
    → x ≤ n
    → a ≤ n
    → b ≤ n
    → (bit_or (bit_or x (bit_or a b)) a ≡ bit_or x (bit_or a b))
      × (bit_or (bit_or x (bit_or a b)) b ≡ bit_or x (bit_or a b))
bit_or_absorbs_fuel zero x a b p q r =
    let ex : x ≡ 0 = omega arith in
    let ea : a ≡ 0 = omega arith in let eb : b ≡ 0 = omega arith in rw (ex, ea, eb) (refl, refl)
bit_or_absorbs_fuel (suc n) x a b p q r =
    let o = bit_or a b in
    let y = bit_or x o in
    let ho : o / 2 ≡ bit_or (a / 2) (b / 2) = omega (arith, bit_or_halves a b) in
    let hx : y / 2 ≡ bit_or (x / 2) (o / 2) = omega (arith, bit_or_halves x o) in
    let hy : y / 2 ≡ bit_or (x / 2) (bit_or (a / 2) (b / 2)) = hx ∙ ap (λ v. bit_or (x / 2) v) ho in
    let (ia, ib) =
      bit_or_absorbs_fuel n (x / 2) (a / 2) (b / 2) (omega arith) (omega arith) (omega arith) in
    let ha : bit_or (y / 2) (a / 2) ≡ y / 2 = rw hy ia in
    let hb : bit_or (y / 2) (b / 2) ≡ y / 2 = rw hy ib in
    (
      omega (arith, bit_or_halves y a, bit_or_halves x o, bit_or_halves a b, ha),
      omega (arith, bit_or_halves y b, bit_or_halves x o, bit_or_halves a b, hb),
    )

-- A number has the bits that two others have put in it.
pub bit_or_absorbs :
    (x a b : ℕ)
    → (bit_or (bit_or x (bit_or a b)) a ≡ bit_or x (bit_or a b))
      × (bit_or (bit_or x (bit_or a b)) b ≡ bit_or x (bit_or a b))
bit_or_absorbs x a b =
    bit_or_absorbs_fuel (x + a + b) x a b (omega arith) (omega arith) (omega arith)
