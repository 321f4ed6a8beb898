-- ===== src/Wire/Plan/Throughput.antt =====
-- No cell of a plan is due before the line has had time for its bytes and all those in front of it.
use ttyforge.Common.{
  if◌then◌else◌, Bytes, length, is_empty, length-append, All, ℕ, ◌+◌, ◌≤◌, max, ◌≡◌, Bool, Option,
  none, some, List, [], ◌∷◌, arith,
}
use ttyforge.Wire.Float.{Float64}
use ttyforge.Wire.Chunks.{chunks, chunks-small}
use ttyforge.Wire.Plan.{Cell, Wire, line_time, transform, jitter_sample, plan_chunks, plan}
use ttyforge.Wire.Plan.Noise.{Noisy, silent, lost, kept, flipped, transform-Noisy}
use ttyforge.Wire.Plan.Payload.{payload, payload_cell}
use ttyforge.Wire.Plan.Schedule.{IsValid, exact_time, exact_time-add, line_time_exact}
use native.Mathlib.Nat.{add-zero}

pub exact_time_mono : (o : Option ℕ) (m n : ℕ) → m ≤ n → exact_time o m ≤ exact_time o n
exact_time_mono none m n h = omega arith
exact_time_mono (some bt) m n h = grind arith

-- Behind `n` bytes on a line that starts at `base`, no cell is due before its last byte is over.
abbrev pub Paced : Option ℕ → ℕ → ℕ → List Cell → Type 0
Paced o base n [] = Unit
Paced o base n (c ∷ cells) =
    (base + exact_time o (n + length c.bytes) ≤ c.due) × Paced o base (n + length c.bytes) cells

pub Paced-earlier :
    (o : Option ℕ) (base base' n : ℕ) (cells : List Cell)
    → base ≤ base'
    → Paced o base' n cells
    → Paced o base n cells
Paced-earlier o base base' n [] h p = tt
Paced-earlier o base base' n (c ∷ cells) h p =
    (omega (arith, p.0), Paced-earlier o base base' (n + length c.bytes) cells h p.1)

pub Noisy-shorter :
    {lossy dirty : Bool} {bytes out : Bytes}
    → Noisy lossy dirty bytes out
    → length out ≤ length bytes
Noisy-shorter silent = omega arith
Noisy-shorter (lost b h n) = omega (arith, Noisy-shorter n)
Noisy-shorter (kept b n) = omega (arith, Noisy-shorter n)
Noisy-shorter (flipped b bit h l n) = omega (arith, Noisy-shorter n)

-- A chunk's cell, if any of its bytes survive.
Paced-cell :
    (o : Option ℕ) (base n due : ℕ) (out : Bytes) (cells : List Cell)
    → base + exact_time o (n + length out) ≤ due
    → Paced o base (n + length out) cells
    → Paced o base n (if is_empty out then cells else record { bytes = out; due = due } ∷ cells)
Paced-cell o base n due [] cells h p = rw add-zero at p
Paced-cell o base n due (b ∷ out) cells h p = (h, p)

module _ (fl : Float64) where
  open fl use {F}

  -- What a line that starts at `base` and has carried `n` bytes, and its latency, make of a plan.
  pub record IsPaced (o : Option ℕ) (base lat n : ℕ) (w : Wire F) (cells : List Cell) : Type 0 where
    pub paced : Paced o (base + lat) n cells
    pub carried : base + exact_time o (n + length (payload cells)) ≤ w.cursor

  plan_chunks-IsPaced :
      (base lat n : ℕ) (w : Wire F) (css : List Bytes)
      → IsValid w
      → All (λ c. length c ≤ w.cell_bytes) css
      → base + exact_time w.byte_time n ≤ w.cursor
      → let (w', cells) = plan_chunks fl lat w css in IsPaced w.byte_time base lat n w' cells
  unfolding plan_chunks
  plan_chunks-IsPaced base lat n w [] h small before = record {
    paced = tt;
    carried = rw add-zero before;
  }
  plan_chunks-IsPaced base lat n w (chunk ∷ css) h small before =
      let (x, out) = transform fl w.drop_p w.corrupt_p w.rng chunk in
      let cursor' = w.cursor + line_time w.byte_time (length chunk) in
      let w' = record w { rng = x; cursor = cursor' } in
      let cells = (plan_chunks fl lat w' css).1 in
      let fits =
        line_time_exact w.byte_time (length chunk)
          (λ bt e. omega (arith, h.cells_fit bt e, small.0)) in
      let short = Noisy-shorter (transform-Noisy fl w.drop_p w.corrupt_p w.rng chunk) in
      let cost = exact_time-add w.byte_time n (length out) in
      let over : base + exact_time w.byte_time (n + length out) ≤ cursor' = omega (
        arith,
        cost,
        fits,
        before,
        exact_time_mono w.byte_time (length out) (length chunk) short,
      ) in
      let rest =
        plan_chunks-IsPaced base lat (n + length out) w' css
          (record { cells_nonempty = h.cells_nonempty; cells_fit = h.cells_fit }) small.1 over in
      let regroup : n + (length out + length (payload cells))
          ≡ n + length out + length (payload cells) =
        omega arith in
      record {
        paced =
            Paced-cell w.byte_time (base + lat) n (cursor' + lat) out cells (omega (arith, over))
              rest.paced;
        carried =
            rw (payload_cell fl out (cursor' + lat) cells, length-append, regroup) rest.carried;
      }

  -- A plan on a line that has carried `n` bytes since `base`, whatever the wire does to the bytes.
  pub plan-IsPaced :
      (base n now : ℕ) (w : Wire F) (bytes : Bytes)
      → IsValid w
      → base + exact_time w.byte_time n ≤ max w.cursor now
      → let (w', cells) = plan fl now w bytes in IsPaced w.byte_time base w.latency n w' cells
  unfolding plan
  plan-IsPaced base n now w bytes h before =
      let late = (jitter_sample fl w).1 in
      let start = record w { rng = (jitter_sample fl w).0; cursor = max w.cursor now } in
      let css = chunks w.cell_bytes bytes in
      let p =
        plan_chunks-IsPaced base (w.latency + late) n start css
          (record { cells_nonempty = h.cells_nonempty; cells_fit = h.cells_fit })
          (chunks-small w.cell_bytes bytes) before in
      record {
        paced =
            Paced-earlier w.byte_time (base + w.latency) (base + (w.latency + late)) n _
              (omega arith) p.paced;
        carried = p.carried;
      }
