-- ===== src/Wire/Plan.antt =====
-- `WireSpec::build_pair_nth`, `Wire::new` and `Wire::plan` of src/forge/wire.rs. Instants and
-- durations are nanoseconds; `Instant::now()` is an argument.
pub mod Noise
pub mod Payload
pub mod Schedule
pub mod Throughput
pub mod Build
use ttyforge.Wire.Rng
use ttyforge.Common.{
  ◌==◌, if◌then◌else◌, Bytes, length, drop, is_empty, ◌>>=◌, ℕ, ◌+◌, ◌-◌, ◌*◌, ◌/◌, ◌%◌, ◌^◌, max,
  Bool, true, false, not, ◌&&◌, ◌||◌, Option, none, some, List, [], ◌∷◌,
}
use ttyforge.Wire.Float.{Float64}
use ttyforge.Wire.Rng.{u64, next}
use ttyforge.Wire.Chunks.{chunks}
use Prim.Native.Nat.{bit_xor}

pub record WireSpec (F : Type 0) : Type 0 where
  pub baud : Option ℕ
  pub latency : Option ℕ
  pub jitter : Option ℕ
  pub drop : Option F
  pub corrupt : Option F
  pub seed : Option ℕ

pub record Cell : Type 0 where
  pub bytes : Bytes
  pub due : ℕ

pub record Wire (F : Type 0) : Type 0 where
  pub byte_time : Option ℕ
  pub cell_bytes : ℕ
  pub latency : ℕ
  pub jitter : ℕ
  pub drop_p : F
  pub corrupt_p : F
  pub rng : ℕ
  pub cursor : ℕ

abbrev pub unwrap_or {ℓ} : {A : Type ℓ} → Option A → A → A
unwrap_or none d = d
unwrap_or (some a) d = a

abbrev pub is_some {ℓ} : {A : Type ℓ} → Option A → Bool
is_some none = false
is_some (some a) = true

-- `resolve_seed`; the clock's nanoseconds and the process's id are arguments.
unfoldable pub resolve_seed : {F : Type 0} → ℕ → ℕ → WireSpec F → WireSpec F
resolve_seed nanos pid s =
    let stochastic = is_some s.drop || is_some s.corrupt || is_some s.jitter in
    if stochastic && not (is_some s.seed)
    then record s { seed = some (bit_xor nanos (u64 (pid * 2 ^ 32))) }
    else s

-- The seed of one direction's generator.
unfoldable pub direction_seed : Option ℕ → ℕ → ℕ
direction_seed seed direction = u64 (unwrap_or seed 0 + u64 (direction * 0x9e37_79b9_7f4a_7c15))

abbrev pub usize_max : ℕ
usize_max = 2 ^ 64 - 1

-- What `filter_map` does with a closure's result.
abbrev pub push_some : Option ℕ → Bytes → Bytes
push_some none bs = bs
push_some (some b) bs = b ∷ bs

unfoldable pub cell_bytes_of : Option ℕ → ℕ
cell_bytes_of none = usize_max
cell_bytes_of (some b) = max 1 (b / 10 / 200)

-- `bt * chunk.len() as u32`
unfoldable pub line_time : Option ℕ → ℕ → ℕ
line_time none n = 0
line_time (some bt) n = bt * (n % 2 ^ 32)

module _ (fl : Float64) where
  open fl use {F, zero_f, ten_f, lt_f, eq_f, of_nat, div_f, unit_f, from_secs_f64, mul_f64}

  -- `spec.baud.map(|b| Duration::from_secs_f64(10.0 / b as f64))`; the outer `none` is a panic.
  unfoldable pub byte_time_of : Option ℕ → Option (Option ℕ)
  byte_time_of none = some none
  byte_time_of (some b) = from_secs_f64 (div_f ten_f (of_nat b)) >>= λ d. some (some d)

  -- The `Self { ... }` of `Wire::new`, for the byte time computed above it.
  unfoldable pub wire_from : ℕ → WireSpec F → ℕ → Option ℕ → Wire F
  wire_from now spec direction byte_time = record {
    byte_time = byte_time;
    cell_bytes = cell_bytes_of spec.baud;
    latency = unwrap_or spec.latency 0;
    jitter = unwrap_or spec.jitter 0;
    drop_p = unwrap_or spec.drop zero_f;
    corrupt_p = unwrap_or spec.corrupt zero_f;
    rng = Rng.new (direction_seed spec.seed direction);
    cursor = now;
  }

  -- `Wire::new` at the instant `now`; none where it panics.
  unfoldable pub new : ℕ → WireSpec F → ℕ → Option (Wire F)
  unfolding wire_from
  new now spec direction =
      byte_time_of spec.baud >>= λ byte_time. some (wire_from now spec direction byte_time)

  unfoldable pub build_pair_nth : ℕ → WireSpec F → ℕ → Option (Wire F × Wire F)
  build_pair_nth now spec session = do
    let base = u64 (session * 2)
    a ← new now spec base
    b ← new now spec (u64 (base + 1))
    some (a, b)

  unfoldable pub build_pair : ℕ → WireSpec F → Option (Wire F × Wire F)
  unfolding build_pair_nth
  build_pair now spec = build_pair_nth now spec 0

  -- `Rng::f64`
  unfoldable pub rng_f64 : ℕ → ℕ × F
  rng_f64 x = let (x', v) = Rng.next x in (x', unit_f (v / 2 ^ 11))

  -- `p > 0.0 && self.rng.f64() < p`: the generator is asked only where `p` is positive.
  unfoldable pub draws : F → ℕ → ℕ × Bool
  draws p x = let (x', v) = rng_f64 x in if lt_f zero_f p then (x', lt_f v p) else (x, false)

  unfoldable pub corrupt_byte : F → ℕ → ℕ → ℕ × Option ℕ
  corrupt_byte p x b =
      let (x', hit) = draws p x in
      let (x'', v) = Rng.next x' in
      if hit then (x'', some (bit_xor b (2 ^ (v % 8)))) else (x', some b)

  -- The closure of `transform`, on one byte.
  unfoldable pub transform_byte : F → F → ℕ → ℕ → ℕ × Option ℕ
  transform_byte drop_p corrupt_p x b =
      let (x', gone) = draws drop_p x in
      let rest = corrupt_byte corrupt_p x' b in if gone then (x', none) else rest

  -- Its `filter_map`, with the generator's state handed on.
  unfoldable pub transform_each : F → F → ℕ → Bytes → ℕ × Bytes
  transform_each drop_p corrupt_p x [] = (x, [])
  transform_each drop_p corrupt_p x (b ∷ bs) =
      let (x', out) = transform_byte drop_p corrupt_p x b in
      let (x'', outs) = transform_each drop_p corrupt_p x' bs in (x'', push_some out outs)

  unfoldable pub transform : F → F → ℕ → Bytes → ℕ × Bytes
  transform drop_p corrupt_p x chunk =
      if eq_f drop_p zero_f && eq_f corrupt_p zero_f
      then (x, chunk)
      else transform_each drop_p corrupt_p x chunk

  unfoldable pub jitter_sample : Wire F → ℕ × ℕ
  jitter_sample w =
      let (x, v) = rng_f64 w.rng in if w.jitter == 0 then (w.rng, 0) else (x, mul_f64 w.jitter v)

  -- The loop of `plan`; `lat` is the delay of the whole call.
  unfoldable pub plan_chunks : ℕ → Wire F → List Bytes → Wire F × List Cell
  plan_chunks lat w [] = (w, [])
  plan_chunks lat w (chunk ∷ more) =
      let cursor' = w.cursor + line_time w.byte_time (length chunk) in
      let (x, out) = transform w.drop_p w.corrupt_p w.rng chunk in
      let (w', cells) = plan_chunks lat (record w { rng = x; cursor = cursor' }) more in
      (w', if is_empty out then cells else record { bytes = out; due = cursor' + lat } ∷ cells)

  unfoldable pub plan : ℕ → Wire F → Bytes → Wire F × List Cell
  plan now w bytes =
      let (x, late) = jitter_sample w in
      plan_chunks (w.latency + late) (record w { rng = x; cursor = max w.cursor now })
        (chunks w.cell_bytes bytes)
