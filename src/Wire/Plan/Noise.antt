-- ===== src/Wire/Plan/Noise.antt =====
-- What `transform` may do to the bytes of a chunk.
use ttyforge.Wire.Rng
use Prim.Native.Nat.{ℕ, ◌%◌, ◌^◌, ◌<◌, bit_xor}
use ttyforge.Common.{
  Bool-cases, Bytes, length, ◌≡◌, refl, ◌⊎◌, inl, inr, Bool, true, false, ◌&&◌, Option, none, some,
  [], ◌∷◌, arith,
}
use ttyforge.Wire.Float.{Float64}
use ttyforge.Wire.Rng.{next}
use ttyforge.Wire.Plan.{
  push_some, rng_f64, draws, corrupt_byte, transform_byte, transform_each, transform,
}

-- `out` is `bytes` after the wire: in order, a byte lost only on a lossy wire, and one bit of a byte
-- flipped only on a dirty one.
pub data Noisy (lossy dirty : Bool) : Bytes → Bytes → Type 0 where
  silent : Noisy lossy dirty [] []
  lost :
      {bytes out : Bytes} (b : ℕ)
      → lossy ≡ true
      → Noisy lossy dirty bytes out
      → Noisy lossy dirty (b ∷ bytes) out
  kept :
      {bytes out : Bytes} (b : ℕ)
      → Noisy lossy dirty bytes out
      → Noisy lossy dirty (b ∷ bytes) (b ∷ out)
  flipped :
      {bytes out : Bytes} (b bit : ℕ)
      → dirty ≡ true
      → bit < 8
      → Noisy lossy dirty bytes out
      → Noisy lossy dirty (b ∷ bytes) (bit_xor b (2 ^ bit) ∷ out)

pub Noisy-refl : {lossy dirty : Bool} (bytes : Bytes) → Noisy lossy dirty bytes bytes
Noisy-refl [] = silent
Noisy-refl (b ∷ bs) = kept b (Noisy-refl bs)

-- A lossless wire keeps the number of bytes.
pub Noisy-length :
    {dirty : Bool} {bytes out : Bytes} → Noisy false dirty bytes out → length out ≡ length bytes
Noisy-length silent = refl
Noisy-length (lost b h n) = cc
Noisy-length (kept b n) = omega (arith, Noisy-length n)
Noisy-length (flipped b bit h l n) = omega (arith, Noisy-length n)

-- What a byte may become.
abbrev ByteFate : Bool → Bool → ℕ → Option ℕ → Type 0
ByteFate lossy dirty b none = lossy ≡ true
ByteFate lossy dirty b (some c) =
    (c ≡ b) ⊎ ((bit : ℕ) × (dirty ≡ true) × (bit < 8) × (c ≡ bit_xor b (2 ^ bit)))

Noisy-push :
    {lossy dirty : Bool} {bytes out : Bytes} (b : ℕ) (o : Option ℕ)
    → ByteFate lossy dirty b o
    → Noisy lossy dirty bytes out
    → Noisy lossy dirty (b ∷ bytes) (push_some o out)
Noisy-push b none h n = lost b h n
Noisy-push b (some c) (inl e) n = rw e (kept b n)
Noisy-push b (some c) (inr (bit, h, l, e)) n = rw e (flipped b bit h l n)

module _ (fl : Float64) where
  open fl use {F, zero_f, one_f, lt_f, eq_f}

  draws_positive : (p : F) (x : ℕ) → (draws fl p x).1 ≡ true → lt_f zero_f p ≡ true
  unfolding draws
  draws_positive p x h = ground arith

  corrupt_byte-fate :
      (lossy : Bool) (corrupt_p : F) (x b : ℕ)
      → ByteFate lossy (lt_f zero_f corrupt_p) b (corrupt_byte fl corrupt_p x b).1
  unfolding corrupt_byte
  corrupt_byte-fate lossy corrupt_p x b = elim (Bool-cases (draws fl corrupt_p x).1) [
    | inl hit ↦
        let v = (Rng.next (draws fl corrupt_p x).0).1 in
        rw hit (inr (v % 8, draws_positive corrupt_p x hit, omega arith, refl))
    | inr miss ↦ rw miss (inl refl)
  ]

  transform_byte-fate :
      (drop_p corrupt_p : F) (x b : ℕ)
      → ByteFate
          (lt_f zero_f drop_p)
          (lt_f zero_f corrupt_p)
          b
          (transform_byte fl drop_p corrupt_p x b).1
  unfolding transform_byte
  transform_byte-fate drop_p corrupt_p x b = elim (Bool-cases (draws fl drop_p x).1) [
    | inl gone ↦ rw gone (draws_positive drop_p x gone)
    | inr stays ↦
        rw stays (corrupt_byte-fate (lt_f zero_f drop_p) corrupt_p (draws fl drop_p x).0 b)
  ]

  transform_each-Noisy :
      (drop_p corrupt_p : F) (x : ℕ) (bytes : Bytes)
      → Noisy
          (lt_f zero_f drop_p)
          (lt_f zero_f corrupt_p)
          bytes
          (transform_each fl drop_p corrupt_p x bytes).1
  unfolding transform_each
  transform_each-Noisy drop_p corrupt_p x [] = silent
  transform_each-Noisy drop_p corrupt_p x (b ∷ bs) =
      let (x', o) = transform_byte fl drop_p corrupt_p x b in
      Noisy-push b o (transform_byte-fate drop_p corrupt_p x b)
        (transform_each-Noisy drop_p corrupt_p x' bs)

  -- A chunk keeps the order of its bytes: each arrives as it was, or is lost, which takes a positive
  -- drop probability, or has exactly one bit flipped, which takes a positive corruption probability.
  pub transform-Noisy :
      (drop_p corrupt_p : F) (x : ℕ) (bytes : Bytes)
      → Noisy
          (lt_f zero_f drop_p)
          (lt_f zero_f corrupt_p)
          bytes
          (transform fl drop_p corrupt_p x bytes).1
  unfolding transform
  transform-Noisy drop_p corrupt_p x bytes =
      elim (Bool-cases (eq_f drop_p zero_f && eq_f corrupt_p zero_f)) [
        | inl off ↦ rw off (Noisy-refl bytes)
        | inr on ↦ rw on (transform_each-Noisy drop_p corrupt_p x bytes)
      ]

  draws_certain : (x : ℕ) → (draws fl one_f x).1 ≡ true
  unfolding draws rng_f64 Rng.next
  draws_certain x = rw (fl.zero-lt-one) (fl.unit-lt-one _ (omega arith))

  transform_each_drop :
      (corrupt_p : F) (x : ℕ) (bytes : Bytes) → (transform_each fl one_f corrupt_p x bytes).1 ≡ []
  unfolding transform_each transform_byte
  transform_each_drop corrupt_p x [] = refl
  transform_each_drop corrupt_p x (b ∷ bs) =
      rw (draws_certain x) (transform_each_drop corrupt_p (draws fl one_f x).0 bs)

  -- Where every byte is dropped nothing arrives.
  pub transform_drop_all :
      (corrupt_p : F) (x : ℕ) (bytes : Bytes) → (transform fl one_f corrupt_p x bytes).1 ≡ []
  unfolding transform
  transform_drop_all corrupt_p x bytes = rw fl.one-ne-zero (transform_each_drop corrupt_p x bytes)
