-- ===== src/Wire/Rng.antt =====
-- `Rng` of src/forge/wire.rs: xorshift64*, seeded by splitmix64. A state is a number below 2 ^ 64;
-- `wrapping_*` and the shifts are cut at 64 bits.
pub mod State
use ttyforge.Common.{◌==◌, if◌then◌else◌, ℕ, ◌+◌, ◌*◌, ◌/◌, ◌%◌, ◌^◌}
use Prim.Native.Nat.{bit_xor}

abbrev pub u64 : ℕ → ℕ
u64 n = n % 2 ^ 64

-- `z ^ (z >> k)` and `x ^ (x << k)`.
unfoldable pub xor_right : ℕ → ℕ → ℕ
xor_right k x = bit_xor x (x / 2 ^ k)

unfoldable pub xor_left : ℕ → ℕ → ℕ
xor_left k x = bit_xor x (u64 (x * 2 ^ k))

-- `Rng::new`.
unfoldable pub new : ℕ → ℕ
unfolding xor_right
new seed =
    let z0 = u64 (seed + 0x9e37_79b9_7f4a_7c15) in
    let z1 = u64 (xor_right 30 z0 * 0xbf58_476d_1ce4_e5b9) in
    let z2 = u64 (xor_right 27 z1 * 0x94d0_49bb_1331_11eb) in
    let z3 = xor_right 31 z2 in if z3 == 0 then 1 else z3

-- The state that `next` leaves, and what it returns.
unfoldable pub next_state : ℕ → ℕ
unfolding xor_right xor_left
next_state x = xor_right 27 (xor_left 25 (xor_right 12 x))

unfoldable pub next : ℕ → ℕ × ℕ
unfolding next_state
next x = let x' = next_state x in (x', u64 (x' * 0x2545_f491_4f6c_dd1d))
