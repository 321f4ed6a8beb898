-- ===== src/Wire/Parse.antt =====
-- `parse_duration` and `parse_probability` of src/forge/wire.rs. What `str::parse` makes of a decimal
-- number is an interface.
pub mod Units
use ttyforge.Common.{if◌then◌else◌, codes, ℕ, Bool, not, ◌&&◌, ◌||◌, Option, none, some}
use ttyforge.Common.Text.{Text, trim, strip_prefix}
use ttyforge.Wire.Float.{Float64}
use mathlib.Core.List.{reverse}

-- The parts of `f64` that the parsers use besides: `str::parse::<f64>`, `is_finite`, the product, the
-- comparison that `contains` makes, and the scales 1e-6 and 1e-3.
pub record FloatText (fl : Float64) : Type 0 where
  pub parse_f : Text → Option fl.F
  pub is_finite : fl.F → Bool
  pub mul_f : fl.F → fl.F → fl.F
  pub le_f : fl.F → fl.F → Bool
  pub micro : fl.F
  pub milli : fl.F

-- `str::strip_suffix`
unfoldable pub turned : Option Text → Option Text
turned none = none
turned (some v) = some (reverse v)

unfoldable pub strip_suffix : Text → Text → Option Text
unfolding turned strip_prefix
strip_suffix suffix s = turned (strip_prefix (reverse suffix) (reverse s))

-- What `parse_duration` comes to; the product may be no duration, where `from_secs_f64` panics.
pub data ParsedDuration : Type 0 where
  duration : ℕ → ParsedDuration
  bad_number : ParsedDuration
  negative : ParsedDuration
  overflows : ParsedDuration

pub data ParsedProbability (F : Type 0) : Type 0 where
  probability : F → ParsedProbability F
  bad_probability : ParsedProbability F
  out_of_range : ParsedProbability F

module _ (fl : Float64) (ft : FloatText fl) where
  open fl use {F, zero_f, one_f, lt_f, from_secs_f64}
  open ft use {parse_f, is_finite, mul_f, le_f, micro, milli}

  -- The number in front of the unit, and the seconds of the unit.
  unfoldable pub number_and_scale : Text → Text × F
  unfolding strip_suffix
  number_and_scale s = elim (strip_suffix (codes "us") s) [
    | some v ↦ (v, micro)
    | none ↦ elim (strip_suffix (codes "ms") s) [
      | some v ↦ (v, milli)
      | none ↦ elim (strip_suffix (codes "s") s) [ some v ↦ (v, one_f) | none ↦ (s, milli) ]
    ]
  ]

  unfoldable pub as_duration : Option ℕ → ParsedDuration
  as_duration none = overflows
  as_duration (some d) = duration d

  unfoldable pub scaled_number : F → Option F → ParsedDuration
  unfolding as_duration
  scaled_number scale none = bad_number
  scaled_number scale (some n) =
      if not (is_finite n) || lt_f n zero_f
      then negative
      else as_duration (from_secs_f64 (mul_f n scale))

  unfoldable pub parse_duration : Text → ParsedDuration
  unfolding number_and_scale scaled_number
  parse_duration s =
      let (num, scale) = number_and_scale s in scaled_number scale (parse_f (trim num))

  unfoldable pub in_unit_range : Option F → ParsedProbability F
  in_unit_range none = bad_probability
  in_unit_range (some p) = if le_f zero_f p && le_f p one_f then probability p else out_of_range

  unfoldable pub parse_probability : Text → ParsedProbability F
  unfolding in_unit_range
  parse_probability s = in_unit_range (parse_f s)
