-- ===== src/Wire/Parse/Units.antt =====
-- Which unit a duration is read in.
use ttyforge.Common.{
  ◌==◌, Bool-cases, Option-cases, codes, ℕ, ◌≡◌, refl, ap, ◌∙◌, inl, inr, true, false, Option, none,
  some, [], ◌∷◌, ◌++◌, append-nil,
}
use ttyforge.Common.Text.{Text, trim, strip_prefix}
use ttyforge.Wire.Float.{Float64}
use ttyforge.Wire.Parse.{
  FloatText, turned, strip_suffix, ParsedDuration, duration, bad_number, negative, overflows,
  number_and_scale, as_duration, scaled_number, parse_duration,
}
use mathlib.Core.List.{reverse, reverse-append, reverse-reverse, reverse-cons}

-- The units, as they are spelled and what they are in seconds.
pub data TimeUnit : Type 0 where
  microseconds milliseconds seconds unmarked : TimeUnit

abbrev pub spelled : TimeUnit → Text
spelled microseconds = codes "us"
spelled milliseconds = codes "ms"
spelled seconds = codes "s"
spelled unmarked = []

module _ (fl : Float64) (ft : FloatText fl) where
  abbrev pub scale : TimeUnit → fl.F
  scale microseconds = ft.micro
  scale milliseconds = ft.milli
  scale seconds = fl.one_f
  scale unmarked = ft.milli

  -- The same choice, from the end of the text.
  by_end : Text → Text → Text × fl.F
  by_end text back = elim (turned (strip_prefix (reverse (codes "us")) back)) [
    | some v ↦ (v, ft.micro)
    | none ↦ elim (turned (strip_prefix (reverse (codes "ms")) back)) [
      | some v ↦ (v, ft.milli)
      | none ↦ elim (turned (strip_prefix (reverse (codes "s")) back)) [
        | some v ↦ (v, fl.one_f)
        | none ↦ (text, ft.milli)
      ]
    ]
  ]

  number_and_scale-by_end :
      (text back : Text) → reverse text ≡ back → number_and_scale fl ft text ≡ by_end text back
  unfolding number_and_scale strip_suffix by_end
  number_and_scale-by_end text back e = λ i. by_end text (e i)

  back-spelled :
      (w : Text) (c : ℕ) (ends : Text)
      → reverse ((w ++ c ∷ []) ++ ends) ≡ reverse ends ++ (c ∷ reverse w)
  back-spelled w c ends = rw (reverse-append, reverse-append) refl

  forth : (w : Text) (c : ℕ) → reverse (c ∷ reverse w) ≡ w ++ c ∷ []
  forth w c = rw (reverse-cons, reverse-reverse) refl

  number_and_scale-spelled :
      (u : TimeUnit) (w : Text) (c : ℕ)
      → (b'u' == c) ≡ false
      → (b'm' == c) ≡ false
      → (b's' == c) ≡ false
      → number_and_scale fl ft ((w ++ c ∷ []) ++ spelled u) ≡ (w ++ c ∷ [], scale u)
  unfolding by_end turned strip_prefix
  number_and_scale-spelled microseconds w c hu hm hs =
      number_and_scale-by_end _ _ (back-spelled w c (codes "us")) ∙ rw (forth w c) refl
  number_and_scale-spelled milliseconds w c hu hm hs =
      number_and_scale-by_end _ _ (back-spelled w c (codes "ms")) ∙ rw (forth w c) refl
  number_and_scale-spelled seconds w c hu hm hs =
      number_and_scale-by_end _ _ (back-spelled w c (codes "s"))
      ∙ rw (by_end, turned, strip_prefix, hu, hm, forth w c) refl
  number_and_scale-spelled unmarked w c hu hm hs =
      number_and_scale-by_end _ _ (back-spelled w c [])
      ∙ rw (by_end, turned, strip_prefix, hs, turned, strip_prefix, hs, turned, strip_prefix, hs)
          (ap (λ v. (v, ft.milli)) (append-nil (w ++ c ∷ [])))

  -- What a number of seconds should be read as, from what the decimal in front of its unit is: refused
  -- where there is none, where it is not finite and where it is below zero; else its product with the
  -- unit, where that is a duration.
  pub data ReadAs (unit : fl.F) : Option fl.F → ParsedDuration → Type 0 where
    no_number : ReadAs unit none bad_number
    infinite : {n : fl.F} → ft.is_finite n ≡ false → ReadAs unit (some n) negative
    below_zero : {n : fl.F} → fl.lt_f n fl.zero_f ≡ true → ReadAs unit (some n) negative
    in_time :
        {n : fl.F} {d : ℕ}
        → ft.is_finite n ≡ true
        → fl.lt_f n fl.zero_f ≡ false
        → fl.from_secs_f64 (ft.mul_f n unit) ≡ some d
        → ReadAs unit (some n) (duration d)
    too_long :
        {n : fl.F}
        → ft.is_finite n ≡ true
        → fl.lt_f n fl.zero_f ≡ false
        → fl.from_secs_f64 (ft.mul_f n unit) ≡ none
        → ReadAs unit (some n) overflows

  scaled_number-ReadAs :
      (unit : fl.F) (o : Option fl.F) → ReadAs unit o (scaled_number fl ft unit o)
  unfolding scaled_number as_duration
  scaled_number-ReadAs unit none = no_number
  scaled_number-ReadAs unit (some n) = elim (Bool-cases (ft.is_finite n)) [
    | inr huge ↦ rw huge (infinite huge)
    | inl finite ↦ elim (Bool-cases (fl.lt_f n fl.zero_f)) [
      | inl below ↦ rw (finite, below) (below_zero below)
      | inr above ↦ elim (Option-cases (fl.from_secs_f64 (ft.mul_f n unit))) [
        | inl e ↦ rw (finite, above, e) (too_long finite above e)
        | inr (d, e) ↦ rw (finite, above, e) (in_time finite above e)
      ]
    ]
  ]

  -- A duration is read in the unit that it ends in, milliseconds where it ends in none: where what is
  -- in front of the unit ends in none of the units' letters, it is read as the decimal that it is,
  -- refused where it is none, infinite or negative, and gives its product with the unit, or
  -- overflows where that is no duration.
  pub parse_duration-ReadAs :
      (u : TimeUnit) (w : Text) (c : ℕ)
      → (b'u' == c) ≡ false
      → (b'm' == c) ≡ false
      → (b's' == c) ≡ false
      → ReadAs
          (scale u)
          (ft.parse_f (trim (w ++ c ∷ [])))
          (parse_duration fl ft ((w ++ c ∷ []) ++ spelled u))
  unfolding parse_duration
  parse_duration-ReadAs u w c hu hm hs =
      rw (number_and_scale-spelled u w c hu hm hs)
        (scaled_number-ReadAs (scale u) (ft.parse_f (trim (w ++ c ∷ []))))
