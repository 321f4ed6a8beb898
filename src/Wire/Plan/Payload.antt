-- ===== src/Wire/Plan/Payload.antt =====
-- The bytes that a plan delivers are those of one `transform` over the whole data: the cells and
-- the cuts between calls leave no trace in them.
use ttyforge.Common.{
  if◌then◌else◌, Bool-cases, Bytes, length, is_empty, ℕ, ◌+◌, ◌≤◌, max, ◌≡◌, refl, ◌∙◌, inl, inr,
  ◌&&◌, List, [], ◌∷◌, ◌++◌, arith,
}
use ttyforge.Wire.Float.{Float64}
use ttyforge.Wire.Chunks.{chunks, flatten-chunks}
use ttyforge.Wire.Plan.{
  Cell, Wire, line_time, transform_byte, transform_each, transform, jitter_sample, plan_chunks,
  plan,
}
use mathlib.Core.List.{flatten}

-- What arrives, over all cells.
abbrev pub payload : List Cell → Bytes
payload [] = []
payload (c ∷ cells) = c.bytes ++ payload cells

module _ (fl : Float64) where
  open fl use {F, zero_f, eq_f}

  transform_each-append :
      (d c : F) (x : ℕ) (xs ys : Bytes)
      → let (x', out) = transform_each fl d c x xs in
        let (x'', out') = transform_each fl d c x' ys in
        transform_each fl d c x (xs ++ ys) ≡ (x'', out ++ out')
  unfolding transform_each
  transform_each-append d c x [] ys = refl
  transform_each-append d c x (b ∷ bs) ys =
      let (x', o) = transform_byte fl d c x b in ground (arith, transform_each-append d c x' bs ys)

  -- Two chunks in turn are their concatenation, generator and bytes.
  pub transform-append :
      (d c : F) (x : ℕ) (xs ys : Bytes)
      → let (x', out) = transform fl d c x xs in
        let (x'', out') = transform fl d c x' ys in
        transform fl d c x (xs ++ ys) ≡ (x'', out ++ out')
  unfolding transform
  transform-append d c x xs ys = elim (Bool-cases (eq_f d zero_f && eq_f c zero_f)) [
    | inl off ↦ rw off
    | inr on ↦ rw on (transform_each-append d c x xs ys)
  ]

  transform-nil : (d c : F) (x : ℕ) → transform fl d c x [] ≡ (x, [])
  unfolding transform transform_each
  transform-nil d c x = ground arith

  pub payload_cell :
      (out : Bytes) (due : ℕ) (cells : List Cell)
      → payload (if is_empty out then cells else record { bytes = out; due = due } ∷ cells)
        ≡ out ++ payload cells
  payload_cell [] due cells = refl
  payload_cell (b ∷ out) due cells = refl

  -- What a plan leaves of the wire beside its schedule: the generator; and what it delivers.
  plan_chunks-transform :
      (lat : ℕ) (w : Wire F) (css : List Bytes)
      → let (w', cells) = plan_chunks fl lat w css in
        ((w'.rng, payload cells) ≡ transform fl w.drop_p w.corrupt_p w.rng (flatten css))
  unfolding plan_chunks flatten
  plan_chunks-transform lat w [] = rw transform-nil
  plan_chunks-transform lat w (chunk ∷ css) =
      let cursor' = w.cursor + line_time w.byte_time (length chunk) in
      let (x, out) = transform fl w.drop_p w.corrupt_p w.rng chunk in
      let rest = plan_chunks-transform lat (record w { rng = x; cursor = cursor' }) css in
      let d = plan_chunks fl lat (record w { rng = x; cursor = cursor' }) css in
      ground (
        arith,
        payload_cell out (cursor' + lat) d.1,
        transform-append w.drop_p w.corrupt_p w.rng chunk (flatten css),
        rest,
      )

  -- On a wire with cells of a byte at least, a plan delivers the data as one `transform` makes it,
  -- after the draw for the jitter, and leaves the generator where that does.
  pub plan-transform :
      (now : ℕ) (w : Wire F) (bytes : Bytes)
      → 1 ≤ w.cell_bytes
      → let (w', cells) = plan fl now w bytes in
        ((w'.rng, payload cells) ≡ transform fl w.drop_p w.corrupt_p (jitter_sample fl w).0 bytes)
  unfolding plan
  plan-transform now w bytes h = rw (flatten-chunks w.cell_bytes bytes h) at (
      plan_chunks-transform (w.latency + (jitter_sample fl w).1)
        (record w { rng = (jitter_sample fl w).0; cursor = max w.cursor now })
        (chunks w.cell_bytes bytes))

  plan_chunks-keeps_noise :
      (lat : ℕ) (w : Wire F) (css : List Bytes)
      → let w' = (plan_chunks fl lat w css).0 in
        (w'.drop_p ≡ w.drop_p) × (w'.corrupt_p ≡ w.corrupt_p) × (w'.cell_bytes ≡ w.cell_bytes)
  unfolding plan_chunks
  plan_chunks-keeps_noise lat w [] = (refl, refl, refl)
  plan_chunks-keeps_noise lat w (chunk ∷ css) =
      let (x, out) = transform fl w.drop_p w.corrupt_p w.rng chunk in
      let cursor' = w.cursor + line_time w.byte_time (length chunk) in
      plan_chunks-keeps_noise lat (record w { rng = x; cursor = cursor' }) css

  pub plan-keeps_noise :
      (now : ℕ) (w : Wire F) (bytes : Bytes)
      → let w' = (plan fl now w bytes).0 in
        (w'.drop_p ≡ w.drop_p) × (w'.corrupt_p ≡ w.corrupt_p) × (w'.cell_bytes ≡ w.cell_bytes)
  unfolding plan
  plan-keeps_noise now w bytes =
      plan_chunks-keeps_noise (w.latency + (jitter_sample fl w).1)
        (record w { rng = (jitter_sample fl w).0; cursor = max w.cursor now })
        (chunks w.cell_bytes bytes)

  jitter_sample_off : (w : Wire F) → w.jitter ≡ 0 → (jitter_sample fl w).0 ≡ w.rng
  unfolding jitter_sample
  jitter_sample_off w h = ground arith

  plan_chunks-jitter :
      (lat : ℕ) (w : Wire F) (css : List Bytes) → (plan_chunks fl lat w css).0.jitter ≡ w.jitter
  unfolding plan_chunks
  plan_chunks-jitter lat w [] = refl
  plan_chunks-jitter lat w (chunk ∷ css) =
      let (x, out) = transform fl w.drop_p w.corrupt_p w.rng chunk in
      let cursor' = w.cursor + line_time w.byte_time (length chunk) in
      plan_chunks-jitter lat (record w { rng = x; cursor = cursor' }) css

  plan-jitter : (now : ℕ) (w : Wire F) (bytes : Bytes) → (plan fl now w bytes).0.jitter ≡ w.jitter
  unfolding plan
  plan-jitter now w bytes =
      plan_chunks-jitter (w.latency + (jitter_sample fl w).1)
        (record w { rng = (jitter_sample fl w).0; cursor = max w.cursor now })
        (chunks w.cell_bytes bytes)

  -- Without jitter, on a wire whose cells are not empty, the bytes that arrive do not depend on
  -- when the data comes or how the reads cut it: two plans in turn deliver what one plan of both
  -- pieces delivers, and leave its generator.
  pub plan-payload-append :
      (now t1 t2 : ℕ) (w : Wire F) (xs ys : Bytes)
      → 1 ≤ w.cell_bytes
      → w.jitter ≡ 0
      → let (w', cells) = plan fl t1 w xs in
        let (w'', cells') = plan fl t2 w' ys in
        let (v, whole) = plan fl now w (xs ++ ys) in
        (payload whole ≡ payload cells ++ payload cells') × (v.rng ≡ w''.rng)
  plan-payload-append now t1 t2 w xs ys h j =
      let w' = (plan fl t1 w xs).0 in
      let (d, c, b) = plan-keeps_noise t1 w xs in
      let first = plan-transform t1 w xs h in
      let second = plan-transform t2 w' ys (rw b h) in
      let whole = plan-transform now w (xs ++ ys) h in
      let off' = jitter_sample_off w' (plan-jitter t1 w xs ∙ j) in
      let off = jitter_sample_off w j in
      let cut = transform-append w.drop_p w.corrupt_p w.rng xs ys in (ground arith, ground arith)
