-- ===== src/Wire/Float.antt =====
-- The double-precision arithmetic that src/forge/wire.rs uses, as an interface: the operations it
-- calls on `f64`, and the two of `Duration` that take one. A `Duration` is a number of nanoseconds.
use ttyforge.Common.{
  ltb, ◌==◌, if◌then◌else◌, ℕ, ◌*◌, ◌/◌, ◌^◌, ◌≤◌, ◌<◌, ◌≡◌, refl, Bool, true, false, Option, none,
  some, arith,
}

pub record Float64 : Type 1 where
  pub F : Type 0
  pub zero_f : F
  pub one_f : F
  pub ten_f : F
  pub lt_f : F → F → Bool
  pub eq_f : F → F → Bool
  -- `n as f64`
  pub of_nat : ℕ → F
  pub div_f : F → F → F
  -- `n as f64 * (1.0 / (1u64 << 53) as f64)`
  pub unit_f : ℕ → F
  -- `Duration::from_secs_f64`, none where it panics
  pub from_secs_f64 : F → Option ℕ
  -- `Duration::mul_f64`
  pub mul_f64 : ℕ → F → ℕ
  -- Zero equals itself and is not below itself.
  pub eq_zero : eq_f zero_f zero_f ≡ true
  pub lt_zero : lt_f zero_f zero_f ≡ false
  pub zero-lt-one : lt_f zero_f one_f ≡ true
  pub one-ne-zero : eq_f one_f zero_f ≡ false
  -- Scaling 53 bits lands in [0, 1).
  pub unit-lt-one : (n : ℕ) → n < 2 ^ 53 → lt_f (unit_f n) one_f ≡ true
  -- No scaling of 53 bits makes a duration grow, below 52 days, where rounding is finer than that.
  pub mul_f64-le : (d n : ℕ) → d < 2 ^ 52 → n < 2 ^ 53 → mul_f64 d (unit_f n) ≤ d
  -- Ten over zero is infinite, which `from_secs_f64` refuses; over a rate it is a duration.
  pub rate_zero : from_secs_f64 (div_f ten_f (of_nat 0)) ≡ none
  pub rate_some : (b : ℕ) → 0 < b → (d : ℕ) × (from_secs_f64 (div_f ten_f (of_nat b)) ≡ some d)

-- A number of 2^-53, or infinity.
pub data Scaled : Type 0 where
  fin : ℕ → Scaled
  inf : Scaled

abbrev pub one_scaled : ℕ
one_scaled = 2 ^ 53

lt_scaled : Scaled → Scaled → Bool
lt_scaled (fin a) (fin b) = ltb a b
lt_scaled (fin a) inf = true
lt_scaled inf y = false

eq_scaled : Scaled → Scaled → Bool
eq_scaled (fin a) (fin b) = a == b
eq_scaled inf inf = true
eq_scaled _ _ = false

div_scaled : Scaled → Scaled → Scaled
div_scaled (fin a) (fin b) = if b == 0 then inf else fin (a * one_scaled / b)
div_scaled (fin a) inf = fin 0
div_scaled inf y = inf

secs_scaled : Scaled → Option ℕ
secs_scaled (fin a) = some (a * 1_000_000_000 / one_scaled)
secs_scaled inf = none

mul_scaled : ℕ → Scaled → ℕ
mul_scaled d (fin a) = d * a / one_scaled
mul_scaled d inf = 0

unit-lt_scaled : (n : ℕ) → n < 2 ^ 53 → lt_scaled (fin n) (fin one_scaled) ≡ true
unfolding lt_scaled
unit-lt_scaled n h = ground arith

mul-le_scaled : (d n : ℕ) → d < 2 ^ 52 → n < 2 ^ 53 → mul_scaled d (fin n) ≤ d
unfolding mul_scaled
mul-le_scaled d n small h = let e : d * n ≤ d * one_scaled = grind arith in omega (arith, e)

rate_some_scaled :
    (b : ℕ)
    → 0 < b
    → (d : ℕ) × (secs_scaled (div_scaled (fin (10 * one_scaled)) (fin (b * one_scaled))) ≡ some d)
unfolding secs_scaled div_scaled
rate_some_scaled b h =
    (10 * one_scaled * one_scaled / (b * one_scaled) * 1_000_000_000 / one_scaled, ground arith)

-- Fixed-point numbers meet the interface.
unfoldable pub scaled : Float64
unfolding lt_scaled eq_scaled div_scaled secs_scaled mul_scaled unit-lt_scaled mul-le_scaled
    rate_some_scaled
scaled = record {
  F = Scaled;
  zero_f = fin 0;
  one_f = fin one_scaled;
  ten_f = fin (10 * one_scaled);
  lt_f = lt_scaled;
  eq_f = eq_scaled;
  of_nat = λ n. fin (n * one_scaled);
  div_f = div_scaled;
  unit_f = fin;
  from_secs_f64 = secs_scaled;
  mul_f64 = mul_scaled;
  eq_zero = refl;
  lt_zero = refl;
  zero-lt-one = refl;
  one-ne-zero = refl;
  unit-lt-one = unit-lt_scaled;
  mul_f64-le = mul-le_scaled;
  rate_zero = refl;
  rate_some = rate_some_scaled;
}
