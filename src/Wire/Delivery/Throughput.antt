-- ===== src/Wire/Delivery/Throughput.antt =====
-- A cable is no faster than its line: how much `pump` of src/forge/wire.rs has written by an instant.
use ttyforge.Common.{
  leb, if◌then◌else◌, if-holds, leb→le, Bool-cases, Bytes, length, length-append, ℕ, ◌+◌, ◌-◌, ◌≤◌,
  max, ◌≡◌, refl, ◌∙◌, ◌⊎◌, inl, inr, Bool, Option, List, [], ◌∷◌, ◌++◌, append-nil, arith,
}
use ttyforge.Wire.Float.{Float64}
use ttyforge.Wire.Plan.{Cell, Wire, plan}
use ttyforge.Wire.Plan.Payload.{payload}
use ttyforge.Wire.Plan.Schedule.{IsValid, exact_time, exact_time-zero, plan-keeps, plan-IsValid}
use ttyforge.Wire.Plan.Throughput.{exact_time_mono, Paced, plan-IsPaced}
use ttyforge.Wire.Delivery.{
  Sink, Sent, Read, no_consumer, got, read_failed, Pump, deliver_cells, deliver, pump_round, pump,
}
use ttyforge.Wire.Delivery.Recorded.{payload-append}
use native.Mathlib.Nat.{add-zero}
use mathlib.Core.Path.{subst}

-- An end that remembers what it was given and when, refuses what it likes, and takes its time.
abbrev pub attempts :
    (ℕ → Bytes → List Cell → Bool) → (ℕ → Bytes → List Cell → ℕ) → Sink (List Cell)
attempts accepts over = record {
  write_all =
      λ at bytes log. (log ++ record { bytes = bytes; due = at } ∷ [], accepts at bytes log);
  done_at = over;
}

-- The number of bytes written, a refused write being counted, at an instant or before it.
abbrev pub written_by : ℕ → List Cell → ℕ
written_by t [] = 0
written_by t (c ∷ log) = (if leb c.due t then length c.bytes else 0) + written_by t log

written_by-snoc :
    (t : ℕ) (log : List Cell) (c : Cell)
    → written_by t (log ++ c ∷ []) ≡ written_by t log + (if leb c.due t then length c.bytes else 0)
written_by-snoc t [] c = omega arith
written_by-snoc t (d ∷ log) c = omega (arith, written_by-snoc t log c)

written_by-le : (t : ℕ) (log : List Cell) → written_by t log ≤ length (payload log)
written_by-le t [] = omega arith
written_by-le t (c ∷ log) = ground (arith, written_by-le t log, length-append c.bytes (payload log))

length-payload-snoc :
    (log : List Cell) (c : Cell)
    → length (payload (log ++ c ∷ [])) ≡ length (payload log) + length c.bytes
length-payload-snoc log c = rw (payload-append, length-append, append-nil) refl

-- By each instant the line, which starts at `base`, has had the time for all that was written.
abbrev pub Within : Option ℕ → ℕ → List Cell → Type 0
Within o base log = (t : ℕ) → (written_by t log ≡ 0) ⊎ (base + exact_time o (written_by t log) ≤ t)

Within-snoc :
    (o : Option ℕ) (base : ℕ) (log : List Cell) (c : Cell)
    → Within o base log
    → base + exact_time o (length (payload log) + length c.bytes) ≤ c.due
    → Within o base (log ++ c ∷ [])
Within-snoc o base log c h over = λ t.
    rw (written_by-snoc t log c) (elim (Bool-cases (leb c.due t)) [
      | inl due ↦ rw due (
          inr (
            omega (
              arith,
              over,
              leb→le c.due t due,
              exact_time_mono o (written_by t log + length c.bytes)
                  (length (payload log) + length c.bytes) (omega (arith, written_by-le t log)),
            )))
      | inr late ↦ rw (late, add-zero) (h t)
    ])

module _ (accepts : ℕ → Bytes → List Cell → Bool) (over : ℕ → Bytes → List Cell → ℕ) where
  -- What is left of a log when cells have been written to it, up to a refusal.
  record Grown (o : Option ℕ) (base : ℕ) (log log' : List Cell) (cells : List Cell) : Type 0 where
    within : Within o base log'
    no_more : length (payload log') ≤ length (payload log) + length (payload cells)

  deliver_cells-Grown :
      (o : Option ℕ) (base now : ℕ) (cells log : List Cell)
      → Within o base log
      → Paced o base (length (payload log)) cells
      → Grown o base log (deliver_cells (attempts accepts over) now cells log).sink cells
  unfolding deliver_cells
  deliver_cells-Grown o base now [] log h p = record { within = h; no_more = omega arith }
  deliver_cells-Grown o base now (c ∷ cells) log h p =
      let at = max now c.due in
      let put : Cell = record { bytes = c.bytes; due = at } in
      let log' = log ++ put ∷ [] in
      let size = length-payload-snoc log put in
      let total = length-append c.bytes (payload cells) in
      let wrote = Within-snoc o base log put h (omega (arith, p.0)) in
      let rest = deliver_cells-Grown o base (over at c.bytes log) cells log' wrote (rw size p.1) in
      if-holds (λ (s : Sent (List Cell)). Grown o base log s.sink (c ∷ cells))
        (accepts at c.bytes log)
        (record { within = rest.within; no_more = omega (arith, rest.no_more, size, total) })
        (record { within = wrote; no_more = omega (arith, size, total) })

  module _ (fl : Float64) where
    open fl use {F}

    -- A cable whose line starts at `base`.
    record IsSlow (o : Option ℕ) (base latency : ℕ) (p : Pump F (List Cell)) : Type 0 where
      valid : IsValid p.wire
      rate : p.wire.byte_time ≡ o
      late : p.wire.latency ≡ latency
      within : Within o (base + latency) p.sink
      carried : base + exact_time o (length (payload p.sink)) ≤ max p.wire.cursor p.clock

    pump_round-IsSlow :
        (o : Option ℕ) (base latency : ℕ) (p : Pump F (List Cell)) (r : Read)
        → IsSlow o base latency p
        → IsSlow o base latency (pump_round fl (attempts accepts over) p r)
    unfolding pump_round deliver
    pump_round-IsSlow o base latency p no_consumer h = record {
      valid = h.valid;
      rate = h.rate;
      late = h.late;
      within = h.within;
      carried = omega (arith, h.carried);
    }
    pump_round-IsSlow o base latency p read_failed h = record {
      valid = h.valid;
      rate = h.rate;
      late = h.late;
      within = h.within;
      carried = omega (arith, h.carried);
    }
    pump_round-IsSlow o base latency p (got bytes) h =
        let (w', cells) = plan fl p.clock p.wire bytes in
        let (same_latency, _, _, same_rate) = plan-keeps fl p.clock p.wire bytes in
        let planned =
          plan-IsPaced fl base (length (payload p.sink)) p.clock p.wire bytes h.valid
            (rw h.rate h.carried) in
        let n = length (payload p.sink) in
        let paced =
          subst (λ l. Paced o (base + l) n cells) h.late
            (subst (λ v. Paced v (base + p.wire.latency) n cells) h.rate planned.paced) in
        let carried =
          subst (λ v. base + exact_time v (n + length (payload cells)) ≤ w'.cursor) h.rate
            planned.carried in
        let grown = deliver_cells-Grown o (base + latency) p.clock cells p.sink h.within paced in
        record {
          valid = plan-IsValid fl p.clock p.wire bytes h.valid;
          rate = same_rate ∙ h.rate;
          late = same_latency ∙ h.late;
          within = grown.within;
          carried = omega (arith, carried, exact_time_mono o _ _ grown.no_more);
        }

    pump-IsSlow :
        (o : Option ℕ) (base latency : ℕ) (p : Pump F (List Cell)) (rs : List (ℕ × Read))
        → IsSlow o base latency p
        → IsSlow o base latency (pump fl (attempts accepts over) p rs)
    unfolding pump
    pump-IsSlow o base latency p [] h = h
    pump-IsSlow o base latency p ((t, r) ∷ rs) h =
        let p' = record p { clock = max p.clock t } in
        pump-IsSlow o base latency (pump_round fl (attempts accepts over) p' r) rs (
          pump_round-IsSlow o base latency p' r record {
            valid = h.valid;
            rate = h.rate;
            late = h.late;
            within = h.within;
            carried = omega (arith, h.carried);
          })

    -- From any instant of a run on a cable never outruns its line, however and whenever the reads
    -- come, whatever is lost, flipped or late on the way, whichever writes are refused and however
    -- long they take: by each later instant
    -- the line time of the bytes that the end was given is no more than the time that has passed,
    -- less the latency, since the line was free. What it did not carry while it was idle counts for
    -- nothing. The wire's cells hold a byte at least and, if it is timed, fewer than 2^32.
    pub pump_throughput :
        (w : Wire F) (clock : ℕ) (rs : List (ℕ × Read)) (t : ℕ)
        → IsValid w
        → exact_time w.byte_time (
            written_by t
              (pump fl
                (attempts accepts over)
                (record { wire = w; clock = clock; sink = [] })
                rs).sink)
          ≤ t - (max w.cursor clock + w.latency)
    pump_throughput w clock rs t h =
        let start : Pump F (List Cell) = record { wire = w; clock = clock; sink = [] } in
        let slow = pump-IsSlow w.byte_time (max w.cursor clock) w.latency start rs record {
          valid = h;
          rate = refl;
          late = refl;
          within = λ u. inl refl;
          carried = omega (arith, exact_time-zero w.byte_time);
        } in
        elim (slow.within t) [
          | inl e ↦ rw e (omega (arith, exact_time-zero w.byte_time))
          | inr e ↦ omega (arith, e)
        ]
