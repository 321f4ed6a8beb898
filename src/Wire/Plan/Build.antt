-- ===== src/Wire/Plan/Build.antt =====
-- What a wire starts from: `resolve_seed`, `Wire::new` and the two directions of a session.
use ttyforge.Common.{
  Bytes, length, >>=-eq-some, ℕ, zero, suc, ◌*◌, ◌^◌, ◌≤◌, ◌<◌, max, ◌≡◌, refl, ap, ◌∙◌, ◌≢◌, ◌↔◌,
  true, ◌||◌, Option, none, some, [], ◌∷◌, arith,
}
use ttyforge.Wire.Float.{Float64}
use ttyforge.Wire.Plan.{
  WireSpec, Wire, is_some, resolve_seed, direction_seed, usize_max, cell_bytes_of, line_time,
  byte_time_of, wire_from, new, transform, jitter_sample, plan_chunks, plan,
}
use ttyforge.Wire.Rng.{u64}
use ttyforge.Wire.Rng.State.{IsSeeded, new-IsSeeded}
use ttyforge.Wire.Chunks.{chunks_whole}
use ttyforge.Wire.Plan.Schedule.{IsValid}

-- After `resolve_seed` a wire that draws at random has a seed, one that was given is kept, and the
-- rest of the specification is as it was.
pub resolve_seed_lem :
    {F : Type 0} (nanos pid : ℕ) (s : WireSpec F)
    → let r = resolve_seed nanos pid s in
      ((is_some s.drop || is_some s.corrupt || is_some s.jitter) ≡ true → is_some r.seed ≡ true)
      × (is_some s.seed ≡ true → r ≡ s)
      × (r.baud ≡ s.baud)
      × (r.latency ≡ s.latency)
      × (r.jitter ≡ s.jitter)
      × (r.drop ≡ s.drop)
      × (r.corrupt ≡ s.corrupt)
unfolding resolve_seed
resolve_seed_lem nanos pid s = ground arith

-- Different directions below 2 ^ 64 are seeded differently.
pub direction_seed_injective :
    (seed : Option ℕ) (m n : ℕ)
    → m < 2 ^ 64
    → n < 2 ^ 64
    → direction_seed seed m ≡ direction_seed seed n
    → m ≡ n
unfolding direction_seed
direction_seed_injective seed m n hm hn e =
    let cancel : u64 (m * 0x9e37_79b9_7f4a_7c15) ≡ u64 (n * 0x9e37_79b9_7f4a_7c15) = omega arith in
    omega (arith, ap (λ (t : ℕ). u64 (t * 0xf1de_83e1_9937_733d)) cancel)

pub cell_bytes_of-pos : (o : Option ℕ) → 1 ≤ cell_bytes_of o
unfolding cell_bytes_of
cell_bytes_of-pos none = omega arith
cell_bytes_of-pos (some b) = omega arith

cell_bytes_of-fits : (b : ℕ) → b < 2 ^ 32 → cell_bytes_of (some b) < 2 ^ 32
unfolding cell_bytes_of
cell_bytes_of-fits b h = omega arith

module _ (fl : Float64) where
  open fl use {F, zero_f, eq_f, eq_zero, rate_zero, rate_some}

  byte_time_of-none_iff : (o : Option ℕ) → (byte_time_of fl o ≡ none) ↔ (o ≡ some 0)
  unfolding byte_time_of
  byte_time_of-none_iff none = (λ e. cc, λ e. cc)
  byte_time_of-none_iff (some zero) = (λ e. refl, λ e. rw rate_zero)
  byte_time_of-none_iff (some (suc b)) =
      let (d, e) = rate_some (suc b) (omega arith) in (λ h. cc (rw e at h), λ h. ground arith)

  byte_time_of_rate :
      (o : Option ℕ) (bt : ℕ) → byte_time_of fl o ≡ some (some bt) → (b : ℕ) × (o ≡ some b)
  unfolding byte_time_of
  byte_time_of_rate none bt h = cc
  byte_time_of_rate (some b) bt h = (b, refl)

  -- Building a wire panics exactly at a simulated rate of 0.
  new-none_iff :
      (now : ℕ) (spec : WireSpec F) (direction : ℕ)
      → (new fl now spec direction ≡ none) ↔ (spec.baud ≡ some 0)
  unfolding new
  new-none_iff now spec direction = ground (arith, byte_time_of-none_iff spec.baud)

  wire_from-IsValid :
      (now : ℕ) (spec : WireSpec F) (direction : ℕ) (byte_time : Option ℕ)
      → ((b : ℕ) → spec.baud ≡ some b → b < 2 ^ 32)
      → byte_time_of fl spec.baud ≡ some byte_time
      → IsValid (wire_from fl now spec direction byte_time)
  unfolding wire_from
  wire_from-IsValid now spec direction byte_time h e = record {
    cells_nonempty = cell_bytes_of-pos spec.baud;
    cells_fit = λ bt f.
        let (b, g) = byte_time_of_rate spec.baud bt (e ∙ ap some f) in
        rw g (cell_bytes_of-fits b (h b g));
  }

  -- A wire that was built is valid, for a 32-bit rate; its line is free from now on, and its
  -- generator is in a non-zero state.
  pub new-IsValid :
      (now : ℕ) (spec : WireSpec F) (direction : ℕ) {w : Wire F}
      → ((b : ℕ) → spec.baud ≡ some b → b < 2 ^ 32)
      → new fl now spec direction ≡ some w
      → IsValid w × (w.cursor ≡ now) × IsSeeded w.rng
  unfolding new
  new-IsValid now spec direction {w} h e =
      let (bt, e1, e2) =
        >>=-eq-some (byte_time_of fl spec.baud) (λ t. some (wire_from fl now spec direction t)) e in
      let same_wire : wire_from fl now spec direction bt ≡ w = cc in
      rw (← same_wire) (
        wire_from-IsValid now spec direction bt h e1,
        refl,
        new-IsSeeded (direction_seed spec.seed direction),
      )

  plan_plain :
      (now : ℕ) (w : Wire F) (bytes : Bytes)
      → w.byte_time ≡ none
      → w.latency ≡ 0
      → w.jitter ≡ 0
      → w.drop_p ≡ zero_f
      → w.corrupt_p ≡ zero_f
      → bytes ≢ []
      → length bytes ≤ w.cell_bytes
      → plan fl now w bytes ≡ (
        record w { cursor = max w.cursor now },
        record { bytes = bytes; due = max w.cursor now } ∷ [],
      )
  unfolding plan plan_chunks transform jitter_sample line_time
  plan_plain now w bytes b l j d c ne short =
      rw (chunks_whole w.cell_bytes bytes ne short) (ground (arith, eq_zero))

  -- A wire with no option set hands a chunk on whole, in one cell, due as soon as the line is free.
  pub plan_identity :
      (now later : ℕ) (spec : WireSpec F) (direction : ℕ) {w : Wire F} (bytes : Bytes)
      → spec.baud ≡ none
      → spec.latency ≡ none
      → spec.jitter ≡ none
      → spec.drop ≡ none
      → spec.corrupt ≡ none
      → new fl now spec direction ≡ some w
      → bytes ≢ []
      → length bytes ≤ usize_max
      → plan fl later w bytes
        ≡ (record w { cursor = max now later }, record { bytes = bytes; due = max now later } ∷ [])
  unfolding new byte_time_of cell_bytes_of wire_from
  plan_identity now later spec direction {w} bytes b l j d c e ne short =
      let fresh = wire_from fl now spec direction none in
      let same_wire : fresh ≡ w = ground arith in
      rw (← same_wire)
        (plan_plain later fresh bytes refl (rw l) (rw j) (rw d) (rw c) ne (rw b short))
