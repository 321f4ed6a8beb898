-- ===== src/Wire/Plan/Schedule.antt =====
-- When a plan delivers: line time, order, and no credit for an idle line.
use ttyforge.Wire.Rng
use ttyforge.Common.{
  if◌then◌else◌, Bytes, length, is_empty, length-append, All, ℕ, ◌+◌, ◌*◌, ◌/◌, ◌%◌, ◌^◌, ◌≤◌, ◌<◌,
  max, ◌≡◌, refl, sym, ap, ◌∙◌, Option, none, some, List, [], ◌∷◌, ◌++◌, arith,
}
use ttyforge.Wire.Float.{Float64}
use ttyforge.Wire.Rng.{next}
use ttyforge.Wire.Chunks.{chunks, flatten-chunks, chunks-small}
use ttyforge.Wire.Plan.{Cell, Wire, line_time, rng_f64, transform, jitter_sample, plan_chunks, plan}
use mathlib.Core.List.{flatten}
use native.Mathlib.Nat.{add-zero}

-- Due instants from `lo` on, none before the one in front of it, and none after `hi`.
abbrev pub InOrder : ℕ → ℕ → List Cell → Type 0
InOrder lo hi [] = lo ≤ hi
InOrder lo hi (c ∷ cells) = (lo ≤ c.due) × InOrder c.due hi cells

pub InOrder-earlier :
    (lo lo' hi : ℕ) (cells : List Cell) → lo ≤ lo' → InOrder lo' hi cells → InOrder lo hi cells
InOrder-earlier lo lo' hi [] h o = omega arith
InOrder-earlier lo lo' hi (c ∷ cells) h o = (omega arith, o.1)

InOrder-later :
    (lo hi hi' : ℕ) (cells : List Cell) → hi ≤ hi' → InOrder lo hi cells → InOrder lo hi' cells
InOrder-later lo hi hi' [] h o = omega arith
InOrder-later lo hi hi' (c ∷ cells) h o = (o.0, InOrder-later c.due hi hi' cells h o.1)

pub InOrder-append :
    (lo mid hi : ℕ) (xs ys : List Cell)
    → InOrder lo mid xs
    → InOrder mid hi ys
    → InOrder lo hi (xs ++ ys)
InOrder-append lo mid hi [] ys o p = InOrder-earlier lo mid hi ys o p
InOrder-append lo mid hi (c ∷ xs) ys o p = (o.0, InOrder-append c.due mid hi xs ys o.1 p)

-- What `Wire::new` sets up and `plan` keeps.
pub record IsValid {F : Type 0} (w : Wire F) : Type 0 where
  pub cells_nonempty : 1 ≤ w.cell_bytes
  pub cells_fit : (bt : ℕ) → w.byte_time ≡ some bt → w.cell_bytes < 2 ^ 32

-- The exact cost of `n` bytes on the line.
abbrev pub exact_time : Option ℕ → ℕ → ℕ
exact_time none n = 0
exact_time (some bt) n = bt * n

pub exact_time-zero : (o : Option ℕ) → exact_time o 0 ≡ 0
exact_time-zero none = refl
exact_time-zero (some bt) = omega arith

pub exact_time-add :
    (o : Option ℕ) (m n : ℕ) → exact_time o (m + n) ≡ exact_time o m + exact_time o n
exact_time-add none m n = omega arith
exact_time-add (some bt) m n = omega arith

length-flatten_cons :
    (c : Bytes) (css : List Bytes) → length (flatten (c ∷ css)) ≡ length c + length (flatten css)
unfolding flatten
length-flatten_cons c css = length-append c (flatten css)

pub line_time_exact :
    (o : Option ℕ) (n : ℕ) → ((bt : ℕ) → o ≡ some bt → n < 2 ^ 32) → line_time o n ≡ exact_time o n
unfolding line_time
line_time_exact none n h = refl
line_time_exact (some bt) n h = let e : n % 2 ^ 32 ≡ n = omega (arith, h bt refl) in rw e

module _ (fl : Float64) where
  open fl use {F}

  plan_chunks-cursor :
      (lat : ℕ) (w : Wire F) (css : List Bytes)
      → IsValid w
      → All (λ c. length c ≤ w.cell_bytes) css
      → (plan_chunks fl lat w css).0.cursor
        ≡ w.cursor + exact_time w.byte_time (length (flatten css))
  unfolding plan_chunks flatten
  plan_chunks-cursor lat w [] h small = omega (arith, exact_time-zero w.byte_time)
  plan_chunks-cursor lat w (chunk ∷ css) h small =
      let (x, out) = transform fl w.drop_p w.corrupt_p w.rng chunk in
      let w' = record w { rng = x; cursor = w.cursor + line_time w.byte_time (length chunk) } in
      omega (
        arith,
        plan_chunks-cursor lat w' css
            (record { cells_nonempty = h.cells_nonempty; cells_fit = h.cells_fit }) small.1,
        line_time_exact w.byte_time (length chunk)
            (λ bt e. omega (arith, h.cells_fit bt e, small.0)),
        exact_time-add w.byte_time (length chunk) (length (flatten css)),
        ap (exact_time w.byte_time) (length-flatten_cons chunk css),
      )

  InOrder-cell :
      (lo due hi : ℕ) (out : Bytes) (cells : List Cell)
      → lo ≤ due
      → InOrder due hi cells
      → InOrder lo hi (if is_empty out then cells else record { bytes = out; due = due } ∷ cells)
  InOrder-cell lo due hi [] cells h o = InOrder-earlier lo due hi cells h o
  InOrder-cell lo due hi (b ∷ out) cells h o = (h, o)

  plan_chunks-InOrder :
      (lat : ℕ) (w : Wire F) (css : List Bytes)
      → let (w', cells) = plan_chunks fl lat w css in
        InOrder (w.cursor + lat) (w'.cursor + lat) cells
  unfolding plan_chunks
  plan_chunks-InOrder lat w [] = omega arith
  plan_chunks-InOrder lat w (chunk ∷ css) =
      let (x, out) = transform fl w.drop_p w.corrupt_p w.rng chunk in
      let cursor' = w.cursor + line_time w.byte_time (length chunk) in
      InOrder-cell (w.cursor + lat) (cursor' + lat) _ out _ (omega arith)
        (plan_chunks-InOrder lat (record w { rng = x; cursor = cursor' }) css)

  -- On a wire whose cells are not empty and, if the line is timed, are below 2^32 bytes, a plan
  -- moves the cursor to the later of where it was and now, and on by the line time of every byte
  -- given, whether or not it survives: an idle line has banked nothing, noise costs time.
  pub plan-cursor :
      (now : ℕ) (w : Wire F) (bytes : Bytes)
      → IsValid w
      → (plan fl now w bytes).0.cursor ≡ max w.cursor now + exact_time w.byte_time (length bytes)
  unfolding plan
  plan-cursor now w bytes h = rw (flatten-chunks w.cell_bytes bytes h.cells_nonempty) at (
      plan_chunks-cursor (w.latency + (jitter_sample fl w).1)
        (record w { rng = (jitter_sample fl w).0; cursor = max w.cursor now })
        (chunks w.cell_bytes bytes)
        (record { cells_nonempty = h.cells_nonempty; cells_fit = h.cells_fit })
        (chunks-small w.cell_bytes bytes))

  jitter_sample-le : (w : Wire F) → w.jitter < 2 ^ 52 → (jitter_sample fl w).1 ≤ w.jitter
  unfolding jitter_sample rng_f64 Rng.next
  jitter_sample-le w h =
      let v : ℕ = (Rng.next w.rng).1 / 2 ^ 11 in
      ground (arith, fl.mul_f64-le w.jitter v h (omega arith))

  -- The cells of one plan are due in order, no cell before now and the latency, and none later than
  -- the end of the line time by more than the latency and the jitter.
  pub plan-InOrder :
      (now : ℕ) (w : Wire F) (bytes : Bytes)
      → w.jitter < 2 ^ 52
      → let (w', cells) = plan fl now w bytes in
        InOrder (max w.cursor now + w.latency) (w'.cursor + w.latency + w.jitter) cells
  unfolding plan
  plan-InOrder now w bytes h =
      let late = (jitter_sample fl w).1 in
      let start = record w { rng = (jitter_sample fl w).0; cursor = max w.cursor now } in
      let css = chunks w.cell_bytes bytes in
      InOrder-earlier _ (max w.cursor now + (w.latency + late)) _ _ (omega arith) (
        InOrder-later _
          ((plan_chunks fl (w.latency + late) start css).0.cursor + (w.latency + late)) _ _
          (omega (arith, jitter_sample-le w h)) (plan_chunks-InOrder (w.latency + late) start css))

  plan_chunks-keeps :
      (lat : ℕ) (w : Wire F) (css : List Bytes)
      → let w' = (plan_chunks fl lat w css).0 in
        (w'.latency ≡ w.latency)
        × (w'.jitter ≡ w.jitter)
        × (w'.cell_bytes ≡ w.cell_bytes)
        × (w'.byte_time ≡ w.byte_time)
  unfolding plan_chunks
  plan_chunks-keeps lat w [] = (refl, refl, refl, refl)
  plan_chunks-keeps lat w (chunk ∷ css) =
      let (x, out) = transform fl w.drop_p w.corrupt_p w.rng chunk in
      let cursor' = w.cursor + line_time w.byte_time (length chunk) in
      plan_chunks-keeps lat (record w { rng = x; cursor = cursor' }) css

  pub plan-keeps :
      (now : ℕ) (w : Wire F) (bytes : Bytes)
      → let w' = (plan fl now w bytes).0 in
        (w'.latency ≡ w.latency)
        × (w'.jitter ≡ w.jitter)
        × (w'.cell_bytes ≡ w.cell_bytes)
        × (w'.byte_time ≡ w.byte_time)
  unfolding plan
  plan-keeps now w bytes =
      plan_chunks-keeps (w.latency + (jitter_sample fl w).1)
        (record w { rng = (jitter_sample fl w).0; cursor = max w.cursor now })
        (chunks w.cell_bytes bytes)

  pub plan-IsValid :
      (now : ℕ) (w : Wire F) (bytes : Bytes) → IsValid w → IsValid (plan fl now w bytes).0
  plan-IsValid now w bytes h =
      let (_, _, c, b) = plan-keeps now w bytes in
      record {
        cells_nonempty = rw c h.cells_nonempty;
        cells_fit = λ bt e. rw c (h.cells_fit bt (sym b ∙ e));
      }

  jitter_sample-zero : (w : Wire F) → w.jitter ≡ 0 → jitter_sample fl w ≡ (w.rng, 0)
  unfolding jitter_sample
  jitter_sample-zero w h = ground arith

  plan-InOrder_steady :
      (now : ℕ) (w : Wire F) (bytes : Bytes)
      → w.jitter ≡ 0
      → let (w', cells) = plan fl now w bytes in
        InOrder (max w.cursor now + w.latency) (w'.cursor + w.latency) cells
  unfolding plan
  plan-InOrder_steady now w bytes h =
      rw (jitter_sample-zero w h, add-zero)
        (plan_chunks-InOrder w.latency (record w { rng = w.rng; cursor = max w.cursor now })
          (chunks w.cell_bytes bytes))

  -- Without jitter nothing overtakes: what a later call plans is due after all of the earlier one.
  pub plan-InOrder_twice :
      (now now' : ℕ) (w : Wire F) (xs ys : Bytes)
      → w.jitter ≡ 0
      → let (w', cells) = plan fl now w xs in
        let (w'', cells') = plan fl now' w' ys in
        InOrder (max w.cursor now + w.latency) (w''.cursor + w.latency) (cells ++ cells')
  plan-InOrder_twice now now' w xs ys j =
      let w' = (plan fl now w xs).0 in
      let (same_latency, same_jitter, _, _) = plan-keeps now w xs in
      let later = rw same_latency at (plan-InOrder_steady now' w' ys (same_jitter ∙ j)) in
      InOrder-append _ (w'.cursor + w.latency) _ (plan fl now w xs).1 (plan fl now' w' ys).1
        (plan-InOrder_steady now w xs j)
        (InOrder-earlier _ _ _ (plan fl now' w' ys).1 (omega arith) later)
