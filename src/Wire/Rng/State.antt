-- ===== src/Wire/Rng/State.antt =====
-- The generator never reaches the state 0, in which xorshift would stay for ever.
use ttyforge.Common.{◌==◌, if◌then◌else◌, ℕ, ◌+◌, ◌*◌, ◌/◌, ◌^◌, ◌≤◌, ◌<◌, arith}
use ttyforge.Common.Bits.{bit_xor-pos, bit_xor-lt}
use ttyforge.Wire.Rng.{u64, xor_right, xor_left, new, next_state, next}

pub record IsSeeded (x : ℕ) : Type 0 where
  pub nonzero : 0 < x
  pub fits : x < 2 ^ 64

xor_right-IsSeeded : (k x : ℕ) → x / 2 ^ k < x → IsSeeded x → IsSeeded (xor_right k x)
unfolding xor_right
xor_right-IsSeeded k x shrinks h = record {
  nonzero = bit_xor-pos x (x / 2 ^ k) (λ e. omega arith);
  fits = bit_xor-lt 64 x (x / 2 ^ k) h.fits (omega (arith, shrinks));
}

xor_left-IsSeeded : (x : ℕ) → IsSeeded x → IsSeeded (xor_left 25 x)
unfolding xor_left
xor_left-IsSeeded x h = record {
  nonzero = bit_xor-pos x (u64 (x * 2 ^ 25)) (λ e. omega arith);
  fits = bit_xor-lt 64 x (u64 (x * 2 ^ 25)) h.fits (omega arith);
}

xor_right-lt : (k x : ℕ) → x / 2 ^ k ≤ x → x < 2 ^ 64 → xor_right k x < 2 ^ 64
unfolding xor_right
xor_right-lt k x shrinks h = bit_xor-lt 64 x (x / 2 ^ k) h (omega arith)

start-IsSeeded : (z : ℕ) → z < 2 ^ 64 → IsSeeded (if z == 0 then 1 else z)
start-IsSeeded z h = ground arith

-- Whatever the seed, 0 included, the generator starts in a non-zero 64-bit state.
pub new-IsSeeded : (seed : ℕ) → IsSeeded (new seed)
unfolding new
new-IsSeeded seed =
    let z0 = u64 (seed + 0x9e37_79b9_7f4a_7c15) in
    let z1 = u64 (xor_right 30 z0 * 0xbf58_476d_1ce4_e5b9) in
    let z2 = u64 (xor_right 27 z1 * 0x94d0_49bb_1331_11eb) in
    start-IsSeeded (xor_right 31 z2) (xor_right-lt 31 z2 (omega arith) (omega arith))

-- Every step leads from a non-zero 64-bit state to a non-zero one, and returns 64 bits.
pub next-IsSeeded : (x : ℕ) → IsSeeded x → IsSeeded (next x).0 × ((next x).1 < 2 ^ 64)
unfolding next next_state
next-IsSeeded x h =
    let h12 = xor_right-IsSeeded 12 x (omega (arith, h.nonzero)) h in
    let h25 = xor_left-IsSeeded _ h12 in
    (xor_right-IsSeeded 27 _ (omega (arith, h25.nonzero)) h25, omega arith)
