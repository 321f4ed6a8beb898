-- ===== src/Mux/System/Merged.antt =====
-- What the device of src/forge/mux.rs receives of its consumers.
use ttyforge.Common.{
  ◌==◌, if◌then◌else◌, ==_iff, Bool-cases, Bytes, length, length-append, flatten-snoc, ℕ, ◌≤◌, ◌≡◌,
  refl, sym, ap, ◌∙◌, ◌≢◌, inl, inr, List, [], ◌∷◌, ◌++◌, append-nil, append_assoc, arith,
}
use ttyforge.Common.Family.{update_all}
use ttyforge.Wire.Float.{Float64}
use ttyforge.Wire.Plan.{Cell, Wire, plan}
use ttyforge.Wire.Plan.Payload.{payload}
use ttyforge.Wire.Delivery.Recorded.{IsClean, plan-IsClean, plan-payload_clean}
use ttyforge.Mux.{device_writer}
use ttyforge.Mux.Channels.{backlog, tx_queue, Broadcast, Mpsc}
use ttyforge.Mux.System.{
  chunks_of, Typing, Mux, started, typed_at, Step, reads, takes, lags, types, sends, writes, Reach,
  start, later,
}
use mathlib.Core.List.{flatten}

-- The chunks that were sent, and those of one port.
abbrev pub chunks_sent : List (ℕ × Bytes) → List Bytes
chunks_sent [] = []
chunks_sent ((j, b) ∷ sent) = b ∷ chunks_sent sent

abbrev pub sent_by : ℕ → List (ℕ × Bytes) → List Bytes
sent_by i [] = []
sent_by i ((j, b) ∷ sent) = if j == i then b ∷ sent_by i sent else sent_by i sent

chunks_sent-append :
    (xs ys : List (ℕ × Bytes)) → chunks_sent (xs ++ ys) ≡ chunks_sent xs ++ chunks_sent ys
chunks_sent-append [] ys = refl
chunks_sent-append ((j, b) ∷ xs) ys = ap (λ t. b ∷ t) (chunks_sent-append xs ys)

sent_by-append :
    (i : ℕ) (xs ys : List (ℕ × Bytes)) → sent_by i (xs ++ ys) ≡ sent_by i xs ++ sent_by i ys
sent_by-append i [] ys = refl
sent_by-append i ((j, b) ∷ xs) ys = elim (Bool-cases (j == i)) [
  | inl e ↦ rw e (ap (λ t. b ∷ t) (sent_by-append i xs ys))
  | inr e ↦ rw e (sent_by-append i xs ys)
]

chunks_of-append : (xs ys : List Cell) → chunks_of (xs ++ ys) ≡ chunks_of xs ++ chunks_of ys
chunks_of-append [] ys = refl
chunks_of-append (c ∷ xs) ys = ap (λ t. c.bytes ∷ t) (chunks_of-append xs ys)

flatten-chunks_of : (cells : List Cell) → flatten (chunks_of cells) ≡ payload cells
unfolding flatten
flatten-chunks_of [] = refl
flatten-chunks_of (c ∷ cells) = ap (λ t. c.bytes ++ t) (flatten-chunks_of cells)

sent_by-own :
    (i : ℕ) (b : Bytes) (sent : List (ℕ × Bytes))
    → sent_by i (sent ++ (i, b) ∷ []) ≡ sent_by i sent ++ b ∷ []
sent_by-own i b sent =
    sent_by-append i sent ((i, b) ∷ [])
    ∙ ap (λ t. sent_by i sent ++ t) (rw ((==_iff i i).1 refl) refl)

sent_by-other :
    (i j : ℕ) (b : Bytes) (sent : List (ℕ × Bytes))
    → i ≢ j
    → sent_by j (sent ++ (i, b) ∷ []) ≡ sent_by j sent
sent_by-other i j b sent ne = elim (Bool-cases (i == j)) [
  | inl e ↦ absurd (ne ((==_iff i j).0 e))
  | inr e ↦
      sent_by-append j sent ((i, b) ∷ [])
      ∙ ap (λ t. sent_by j sent ++ t) (rw e refl)
      ∙ append-nil (sent_by j sent)
]

-- What was typed at a port, in order: what it has sent, then what it is still to send.
pub record IsOrdered (fl : Float64) (sent : List Bytes) (t : Typing fl.F) : Type 0 where
  pub in_order : flatten sent ++ flatten t.outbox ≡ t.typed
  pub clean : IsClean fl t.back

module _ (fl : Float64) (bc : Broadcast backlog) (mp : Mpsc tx_queue) where
  open fl use {F}
  open mp use {queued, queued-empty, queued-push, queued-pop}

  -- The device has whole chunks, in the order in which they were sent, and behind them come those
  -- that are queued, of which there are `tx_queue` at most.
  pub record IsMerged (m : Mux fl bc mp) : Type 0 where
    pub whole : chunks_of m.device ++ queued m.queue ≡ chunks_sent m.arrived
    pub room : length (queued m.queue) ≤ tx_queue

  Step-IsMerged : (n : ℕ) {m m' : Mux fl bc mp} → Step fl bc mp n m m' → IsMerged m → IsMerged m'
  unfolding device_writer
  Step-IsMerged n (reads r) h = record { whole = h.whole; room = h.room }
  Step-IsMerged n (takes j now b c lt e) h = record { whole = h.whole; room = h.room }
  Step-IsMerged n (lags j k c lt e) h = record { whole = h.whole; room = h.room }
  Step-IsMerged n (types j now b lt e) h = record { whole = h.whole; room = h.room }
  Step-IsMerged n {m} (sends j b bs q lt e p) h =
      let (there, few) = queued-push b m.queue q p in
      record {
        whole =
            rw there (sym (append_assoc (chunks_of m.device) (queued m.queue) (b ∷ [])))
            ∙ ap (λ t. t ++ b ∷ []) h.whole
            ∙ sym (chunks_sent-append m.arrived ((j, b) ∷ []));
        room = omega (arith, ap length there, length-append {0} (queued m.queue) (b ∷ []));
      }
  Step-IsMerged n {m} (writes now b q p) h =
      let there = queued-pop b m.queue q p in
      record {
        whole =
            rw (chunks_of-append m.device (record { bytes = b; due = now } ∷ []))
              (append_assoc (chunks_of m.device) (b ∷ []) (queued q))
            ∙ ap (λ t. chunks_of m.device ++ t) (sym there)
            ∙ h.whole;
        room = omega (arith, ap length there, h.room);
      }

  typed_at-IsOrdered :
      (now : ℕ) (sent : List Bytes) (t : Typing F) (b : Bytes)
      → t.outbox ≡ []
      → IsOrdered fl sent t
      → IsOrdered fl sent (typed_at fl bc mp now t b)
  unfolding typed_at flatten
  typed_at-IsOrdered now sent t b e h = record {
    in_order =
        rw (flatten-chunks_of (plan fl now t.back b).1, plan-payload_clean fl now t.back b h.clean)
          (ap (λ v. v ++ b)
            (sym (append-nil (flatten sent))
              ∙ ap (λ o. flatten sent ++ flatten o) (sym e)
              ∙ h.in_order));
    clean = plan-IsClean fl now t.back b h.clean;
  }

  moved :
      (sent : List Bytes) (b : Bytes) (bs : List Bytes) {outbox sent' : List Bytes} {typed : Bytes}
      → outbox ≡ b ∷ bs
      → sent' ≡ sent ++ b ∷ []
      → flatten sent ++ flatten outbox ≡ typed
      → flatten sent' ++ flatten bs ≡ typed
  unfolding flatten
  moved sent b bs {outbox} {sent'} e f h =
      rw (f, flatten-snoc sent b) (append_assoc (flatten sent) b (flatten bs))
      ∙ ap (λ o. flatten sent ++ flatten o) (sym e)
      ∙ h

  Step-IsOrdered :
      (n : ℕ) {m m' : Mux fl bc mp}
      → Step fl bc mp n m m'
      → ((i : ℕ) → IsOrdered fl (sent_by i m.arrived) (m.typing i))
      → (i : ℕ) → IsOrdered fl (sent_by i m'.arrived) (m'.typing i)
  unfolding flatten
  Step-IsOrdered n (reads r) h = h
  Step-IsOrdered n (takes j now b c lt e) h = h
  Step-IsOrdered n (lags j k c lt e) h = h
  Step-IsOrdered n {m} (types j now b lt e) h =
      update_all (λ i t. IsOrdered fl (sent_by i m.arrived) t) m.typing j _
        (typed_at-IsOrdered now (sent_by j m.arrived) (m.typing j) b e (h j)) (λ i ne. h i)
  Step-IsOrdered n {m} (sends j b bs q lt e p) h =
      update_all (λ i t. IsOrdered fl (sent_by i (m.arrived ++ (j, b) ∷ [])) t) m.typing j _
        record {
          in_order = moved (sent_by j m.arrived) b bs e (sent_by-own j b m.arrived) (h j).in_order;
          clean = (h j).clean;
        }
        (λ i ne. rw (sent_by-other j i b m.arrived ne) (h i))
  Step-IsOrdered n (writes now b q p) h = h

  started-IsMerged : (now : ℕ) (wires : ℕ → Wire F × Wire F) → IsMerged (started fl bc mp now wires)
  unfolding started tx_queue
  started-IsMerged now wires = record { whole = queued-empty; room = rw queued-empty (omega arith) }

  -- Whatever the order in which the tasks run, where the wires are lossless and clean and the device
  -- takes every write: the device has whole chunks, in the order in which they were sent, before
  -- those that are queued, at most `tx_queue`; and for each port the chunks of its own, with those
  -- that it is still to send, are the bytes typed there, in order.
  pub Reach-IsMerged :
      (n now : ℕ) (wires : ℕ → Wire F × Wire F) (m : Mux fl bc mp)
      → ((j : ℕ) → IsClean fl (wires j).1)
      → Reach fl bc mp n now wires m
      → IsMerged m × ((i : ℕ) → IsOrdered fl (sent_by i m.arrived) (m.typing i))
  unfolding started flatten
  Reach-IsMerged n now wires m clean start =
      (started-IsMerged now wires, λ i. record { in_order = refl; clean = clean i })
  Reach-IsMerged n now wires m clean (later {m = before} r s) =
      let (whole, ordered) = Reach-IsMerged n now wires before clean r in
      (Step-IsMerged n s whole, Step-IsOrdered n s ordered)
