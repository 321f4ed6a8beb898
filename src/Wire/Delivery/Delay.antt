-- ===== src/Wire/Delivery/Delay.antt =====
-- How long `pump` of src/forge/wire.rs takes, whatever becomes of the bytes, where no write takes
-- longer than some time.
use ttyforge.Common.{
  if◌then◌else◌, if-holds, Bytes, length, is_empty, length-append, All, ℕ, ◌+◌, ◌*◌, ◌^◌, ◌≤◌, ◌<◌,
  max, ◌≡◌, refl, ap, ◌∙◌, Option, List, [], ◌∷◌, ◌++◌, arith,
}
use ttyforge.Wire.Float.{Float64}
use ttyforge.Wire.Chunks.{chunks}
use ttyforge.Wire.Plan.{Cell, Wire, line_time, transform, jitter_sample, plan_chunks, plan}
use ttyforge.Wire.Plan.Noise.{transform-Noisy}
use ttyforge.Wire.Plan.Payload.{payload, plan-transform}
use ttyforge.Wire.Plan.Schedule.{
  InOrder, IsValid, exact_time, exact_time-add, plan-cursor, plan-InOrder, plan-keeps, plan-IsValid,
}
use ttyforge.Wire.Plan.Throughput.{Noisy-shorter}
use ttyforge.Wire.Delivery.{
  Sink, Sent, Read, no_consumer, got, read_failed, Pump, ms, deliver_cells, deliver, pump_round,
  pump,
}
use ttyforge.Wire.Delivery.Recorded.{came_bytes}
use mathlib.Core.Path.{subst}

InOrder-le : (lo hi : ℕ) (cells : List Cell) → InOrder lo hi cells → lo ≤ hi
InOrder-le lo hi [] o = o
InOrder-le lo hi (c ∷ cells) o = omega (arith, o.0, InOrder-le c.due hi cells o.1)

-- So much for each element.
abbrev each_of {ℓ} : {A : Type ℓ} → ℕ → List A → ℕ
each_of slow [] = 0
each_of slow (x ∷ xs) = slow + each_of slow xs

each_of-length {ℓ} : {A : Type ℓ} (slow : ℕ) (xs : List A) → each_of slow xs ≡ slow * length xs
each_of-length slow [] = omega arith
each_of-length slow (x ∷ xs) = grind (arith, each_of-length slow xs)

-- The time that the reads take beside the line's: a read delays by `late`, by the time of a write for
-- each of its bytes, and, where a write is refused, by the pause behind that; one without bytes
-- delays by its own pause.
abbrev pub pauses : ℕ → ℕ → List (ℕ × Read) → ℕ
pauses slow late [] = 0
pauses slow late ((t, got bytes) ∷ rs) = late + slow * length bytes + 100 * ms + pauses slow late rs
pauses slow late ((t, no_consumer) ∷ rs) = 50 * ms + pauses slow late rs
pauses slow late ((t, read_failed) ∷ rs) = 100 * ms + pauses slow late rs

abbrev Filled : List Cell → Type 0
Filled = All (λ c. 1 ≤ length c.bytes)

each_of-payload :
    (slow : ℕ) (cells : List Cell)
    → Filled cells
    → each_of slow cells ≤ each_of slow (payload cells)
each_of-payload slow [] f = omega arith
each_of-payload slow (c ∷ cells) f =
    let one : slow ≤ slow * length c.bytes = grind (arith, f.0) in
    let rest = each_of-payload slow cells f.1 in
    let sum : slow * (length c.bytes + length (payload cells))
        ≡ slow * length c.bytes + slow * length (payload cells) =
      grind arith in
    omega (
      arith,
      one,
      rest,
      sum,
      each_of-length {0} slow (payload cells),
      each_of-length {0} slow (c.bytes ++ payload cells),
      ap (λ n. slow * n) (length-append {0} c.bytes (payload cells)),
    )

module _ (fl : Float64) where
  open fl use {F}

  Filled-cell :
      (out : Bytes) (due : ℕ) (cells : List Cell)
      → Filled cells
      → Filled (if is_empty out then cells else record { bytes = out; due = due } ∷ cells)
  Filled-cell [] due cells f = f
  Filled-cell (b ∷ out) due cells f = (omega arith, f)

  plan_chunks-Filled :
      (lat : ℕ) (w : Wire F) (css : List Bytes) → Filled (plan_chunks fl lat w css).1
  unfolding plan_chunks
  plan_chunks-Filled lat w [] = tt
  plan_chunks-Filled lat w (chunk ∷ css) =
      let (x, out) = transform fl w.drop_p w.corrupt_p w.rng chunk in
      let cursor' = w.cursor + line_time w.byte_time (length chunk) in
      Filled-cell out (cursor' + lat) _
        (plan_chunks-Filled lat (record w { rng = x; cursor = cursor' }) css)

  -- The writes of a plan are no more than its bytes.
  plan-each :
      (slow now : ℕ) (w : Wire F) (bytes : Bytes)
      → 1 ≤ w.cell_bytes
      → each_of slow (plan fl now w bytes).1 ≤ slow * length bytes
  unfolding plan
  plan-each slow now w bytes h =
      let cells = (plan fl now w bytes).1 in
      let filled =
        plan_chunks-Filled (w.latency + (jitter_sample fl w).1)
          (record w { rng = (jitter_sample fl w).0; cursor = max w.cursor now })
          (chunks w.cell_bytes bytes) in
      let noisy =
        Noisy-shorter (transform-Noisy fl w.drop_p w.corrupt_p (jitter_sample fl w).0 bytes) in
      let arrives : length (payload cells)
          ≡ length (transform fl w.drop_p w.corrupt_p (jitter_sample fl w).0 bytes).1 =
        ap (λ r. length r.1) (plan-transform fl now w bytes h) in
      let shorter : length (payload cells) ≤ length bytes = omega (arith, arrives, noisy) in
      let total : slow * length (payload cells) ≤ slow * length bytes = grind (arith, shorter) in
      omega
        (arith, each_of-payload slow cells filled, each_of-length {0} slow (payload cells), total)

  module _ {S : Type 0} (k : Sink S) (slow : ℕ)
      (over : (at : ℕ) (bytes : Bytes) (s : S) → k.done_at at bytes s ≤ at + slow) where
    deliver_cells-clock :
        (lo now hi top : ℕ) (cells : List Cell) (s : S)
        → now ≤ top
        → hi ≤ top
        → InOrder lo hi cells
        → (deliver_cells k now cells s).clock ≤ top + each_of slow cells
    unfolding deliver_cells
    deliver_cells-clock lo now hi top [] s h g o = omega (arith, h)
    deliver_cells-clock lo now hi top (c ∷ cells) s h g o =
        let at = max now c.due in
        let (s', done) = k.write_all at c.bytes s in
        let later = k.done_at at c.bytes s in
        let soon : later ≤ top + slow =
          omega (arith, over at c.bytes s, InOrder-le c.due hi cells o.1) in
        let rest =
          deliver_cells-clock c.due later hi (top + slow) cells s' soon (omega arith) o.1 in
        if-holds (λ (r : Sent S). r.clock ≤ top + (slow + each_of slow cells)) done
          (omega (arith, rest)) (omega (arith, soon))

    -- A cable over a wire of this rate, latency and jitter.
    record IsLine (o : Option ℕ) (latency jitter : ℕ) (p : Pump F S) : Type 0 where
      valid : IsValid p.wire
      rate : p.wire.byte_time ≡ o
      late : p.wire.latency ≡ latency
      spread : p.wire.jitter ≡ jitter

    -- The instant from which the cable can go on: its clock's, or that at which its line is free.
    abbrev ready : Pump F S → ℕ
    ready p = max p.wire.cursor p.clock

    round_got-ready :
        (o : Option ℕ) (latency jitter : ℕ) (p : Pump F S) (bytes : Bytes)
        → jitter < 2 ^ 52
        → IsLine o latency jitter p
        → let q = pump_round fl k p (got bytes) in
          IsLine o latency jitter q
          × (ready q
              ≤ ready p
                + exact_time o (length bytes)
                + (latency + jitter + slow * length bytes + 100 * ms))
    unfolding pump_round deliver
    round_got-ready o latency jitter p bytes small h =
        let (w', cells) = plan fl p.clock p.wire bytes in
        let (l, j, _, r) = plan-keeps fl p.clock p.wire bytes in
        let cursor =
          subst (λ v. w'.cursor ≡ ready p + exact_time v (length bytes)) h.rate
            (plan-cursor fl p.clock p.wire bytes h.valid) in
        let order = plan-InOrder fl p.clock p.wire bytes (rw h.spread small) in
        let sent = deliver_cells k p.clock cells p.sink in
        let top = w'.cursor + p.wire.latency + p.wire.jitter in
        let soon : sent.clock ≤ top + each_of slow cells =
          deliver_cells-clock _ p.clock _ top cells p.sink (omega (arith, cursor)) (omega arith)
            order in
        let paused : (if sent.delivered then sent.clock else sent.clock + 100 * ms)
            ≤ sent.clock + 100 * ms =
          if-holds (λ t. t ≤ sent.clock + 100 * ms) sent.delivered (omega arith) (omega arith) in
        let writes = plan-each slow p.clock p.wire bytes (h.valid).cells_nonempty in
        (
          record {
            valid = plan-IsValid fl p.clock p.wire bytes h.valid;
            rate = r ∙ h.rate;
            late = l ∙ h.late;
            spread = j ∙ h.spread;
          },
          omega (arith, cursor, soon, paused, writes, h.late, h.spread),
        )

    pump-ready :
        (o : Option ℕ) (latency jitter end start : ℕ) (p : Pump F S) (rs : List (ℕ × Read))
        → jitter < 2 ^ 52
        → IsLine o latency jitter p
        → All (λ r. r.0 ≤ end) rs
        → end ≤ start
        → ready p ≤ start
        → ready (pump fl k p rs)
          ≤ start + exact_time o (length (came_bytes fl rs)) + pauses slow (latency + jitter) rs
    unfolding pump pump_round
    pump-ready o latency jitter end start p [] small h by e r = omega (arith, r)
    pump-ready o latency jitter end start p ((t, no_consumer) ∷ rs) small h by e r = omega (
      arith,
      pump-ready o latency jitter end (start + 50 * ms)
          (record p { clock = max p.clock t + 50 * ms }) rs small
          (record { valid = h.valid; rate = h.rate; late = h.late; spread = h.spread }) by.1
          (omega arith) (omega (arith, by.0)),
    )
    pump-ready o latency jitter end start p ((t, read_failed) ∷ rs) small h by e r = omega (
      arith,
      pump-ready o latency jitter end (start + 100 * ms)
          (record p { clock = max p.clock t + 100 * ms }) rs small
          (record { valid = h.valid; rate = h.rate; late = h.late; spread = h.spread }) by.1
          (omega arith) (omega (arith, by.0)),
    )
    pump-ready o latency jitter end start p ((t, got bytes) ∷ rs) small h by e r =
        let p' = record p { clock = max p.clock t } in
        let (line, soon) =
          round_got-ready o latency jitter p' bytes small
            (record { valid = h.valid; rate = h.rate; late = h.late; spread = h.spread }) in
        let spent =
          exact_time o (length bytes) + (latency + jitter + slow * length bytes + 100 * ms) in
        omega (
          arith,
          pump-ready o latency jitter end (start + spent) (pump_round fl k p' (got bytes)) rs small
              line by.1 (omega arith) (omega (arith, soon, by.0)),
          exact_time-add o (length bytes) (length (came_bytes fl rs)),
          ap (exact_time o) (length-append bytes (came_bytes fl rs)),
        )

    -- A cable whose writes each take no longer than a given time, and whose reads have come by a
    -- given instant, keeps up, however noisy its wire is and whichever writes its far end refuses:
    -- from that instant, or the later one at which it could start, it takes the line time of all the
    -- bytes read, and for each read the latency, the jitter, a pause, and a write's time for each
    -- byte, at most. The wire's cells hold a byte at least and, if it is timed, fewer than 2^32, and
    -- its jitter is below 2^52 ns.
    pub pump_delay :
        (p : Pump F S) (rs : List (ℕ × Read)) (end : ℕ)
        → IsValid p.wire
        → p.wire.jitter < 2 ^ 52
        → All (λ r. r.0 ≤ end) rs
        → (pump fl k p rs).clock
          ≤ max (max p.wire.cursor p.clock) end
            + exact_time p.wire.byte_time (length (came_bytes fl rs))
            + pauses slow (p.wire.latency + p.wire.jitter) rs
    pump_delay p rs end h small by = omega (
      arith,
      pump-ready p.wire.byte_time p.wire.latency p.wire.jitter end
          (max (max p.wire.cursor p.clock) end) p rs small
          (record { valid = h; rate = refl; late = refl; spread = refl }) by (omega arith)
          (omega arith),
    )
