-- ===== src/Examples/Queues.antt =====
-- A device that two consumers share, over channels that keep a list for each receiver.
use ttyforge.Common.{
  ltb, if◌then◌else◌, ltb→lt, Bool-cases, Bytes, length, take, drop, length-append,
  take-append-drop, length-take, ◌>>=◌, >>=-eq-some, ℕ, suc, ◌-◌, ◌<◌, ◌≡◌, refl, sym, ap, ◌∙◌, ◌≢◌,
  inl, inr, Option, none, some, List, [], ◌∷◌, ◌++◌, arith,
}
use ttyforge.Common.Family.{update, update_self, update_other}
use ttyforge.Wire.Float.{scaled}
use ttyforge.Wire.Plan.{Wire, line_time, transform, jitter_sample, plan_chunks, plan}
use ttyforge.Wire.Chunks.{chunks}
use ttyforge.Wire.Delivery.{got}
use ttyforge.Mux.{Recv, chunk, lagged, device_reader}
use ttyforge.Mux.Channels.{backlog, tx_queue, Broadcast, Mpsc}
use ttyforge.Mux.System.{
  publish, Mux, started, typed_at, reads, takes, types, sends, writes, Reach, start, later,
}
use ttyforge.Mux.System.Copies.{IsCopied, Reach-IsCopied}
use ttyforge.Mux.System.Merged.{sent_by, IsOrdered, IsMerged, Reach-IsMerged}
use ttyforge.Examples.Sessions.{clean_wire, clean_wire-IsClean}

module _ (capacity : ℕ) where
  -- What a receiver gets of its list, and what is left of it.
  front : List Bytes → Option (Recv × List Bytes)
  front [] = none
  front (b ∷ bs) =
      let over = suc (length bs) - capacity in
      if ltb capacity (suc (length bs))
      then some (lagged over, drop over (b ∷ bs))
      else some (chunk b, bs)

  receive : ℕ → (ℕ → List Bytes) → Option (Recv × (ℕ → List Bytes))
  receive i c = front (c i) >>= λ x. some (x.0, update c i x.1)

  front-chunk : (b : Bytes) (l l' : List Bytes) → front l ≡ some (chunk b, l') → l ≡ b ∷ l'
  unfolding front
  front-chunk b [] l' e = cc
  front-chunk b (x ∷ xs) l' e = ground arith

  front-lagged :
      (n : ℕ) (l l' : List Bytes)
      → front l ≡ some (lagged n, l')
      → (lost : List Bytes) × (l ≡ lost ++ l') × (length lost ≡ n) × (length l' ≡ capacity)
  unfolding front
  front-lagged n [] l' e = cc
  front-lagged n (x ∷ xs) l' e =
      let over = suc (length xs) - capacity in
      let (behind, much, rest) : (capacity < suc (length xs))
          × (over ≡ n)
          × (drop over (x ∷ xs) ≡ l') =
        ground arith in
      let whole = take-append-drop over (x ∷ xs) in
      let lengths = length-append {0} (take over (x ∷ xs)) (drop over (x ∷ xs)) in
      (
        take over (x ∷ xs),
        sym whole ∙ ap (λ t. take over (x ∷ xs) ++ t) rest,
        omega (arith, length-take {0} over (x ∷ xs)),
        omega (arith, length-take {0} over (x ∷ xs), ap length whole, ap length rest),
      )

  received :
      (i : ℕ) (r : Recv) (c c' : ℕ → List Bytes)
      → receive i c ≡ some (r, c')
      → (front (c i) ≡ some (r, c' i)) × ((j : ℕ) → i ≢ j → c' j ≡ c j)
  unfolding receive
  received i r c c' e =
      let ((r', l), e1, e2) = >>=-eq-some (front (c i)) (λ x. some (x.0, update c i x.1)) e in
      let same : r' ≡ r = cc in
      let changed : update c i l ≡ c' = cc in
      (
        e1
            ∙ ap (λ v. some (v, l)) same
            ∙ ap (λ v. some (r, v)) (sym (update_self c i l) ∙ ap (λ f. f i) changed),
        λ j ne. sym (ap (λ f. f j) changed) ∙ update_other c i j l ne,
      )

  put : Bytes → List Bytes → Option (List Bytes)
  put b q = if ltb (length q) capacity then some (q ++ b ∷ []) else none

  put_lem :
      (b : Bytes) (q q' : List Bytes)
      → put b q ≡ some q'
      → (q' ≡ q ++ b ∷ []) × (length q < capacity)
  unfolding put
  put_lem b q q' e = elim (Bool-cases (ltb (length q) capacity)) [
    | inl room ↦ (sym (ground arith), ltb→lt (length q) capacity room)
    | inr full ↦ cc (rw full at e)
  ]

get : List Bytes → Option (Bytes × List Bytes)
get [] = none
get (b ∷ q) = some (b, q)

get_lem : (b : Bytes) (q q' : List Bytes) → get q ≡ some (b, q') → q ≡ b ∷ q'
unfolding get
get_lem b [] q' e = cc
get_lem b (x ∷ q) q' e = cc

-- The channels of the library as lists.
queues : (capacity : ℕ) → Broadcast capacity
queues capacity = record {
  Channel = ℕ → List Bytes;
  fresh = λ i. [];
  pending = λ c i. c i;
  send = λ b c i. c i ++ b ∷ [];
  recv = receive capacity;
  pending-fresh = λ i. refl;
  pending-send = λ b c i. refl;
  recv-chunk =
      λ i b c c' e. front-chunk capacity b (c i) (c' i) (received capacity i (chunk b) c c' e).0;
  recv-lagged =
      λ i n c c' e. front-lagged capacity n (c i) (c' i) (received capacity i (lagged n) c c' e).0;
  recv-others = λ i j r c c' e ne. (received capacity i r c c' e).1 j ne;
}

pipe : (capacity : ℕ) → Mpsc capacity
pipe capacity = record {
  Queue = List Bytes;
  empty = [];
  queued = λ q. q;
  push = put capacity;
  pop = get;
  queued-empty = refl;
  queued-push = put_lem capacity;
  queued-pop = get_lem;
}

abbrev clean_pairs : ℕ → Wire scaled.F × Wire scaled.F
clean_pairs i = (clean_wire, clean_wire)

-- The device gives two reads, of which the consumer 0 takes one; the consumer 1 types three bytes,
-- which are two cells, and the first is sent and written.
run :
    (m : Mux scaled (queues backlog) (pipe tx_queue)) × Reach scaled
      (queues backlog)
      (pipe tx_queue)
      2
      0
      clean_pairs
      m
unfolding queues pipe started publish device_reader receive front put get backlog tx_queue typed_at
    plan plan_chunks chunks transform scaled line_time jitter_sample
run = (
  _,
  later
      (later
        (later
          (later (later (later start (reads (got (1 ∷ 2 ∷ [])))) (reads (got (3 ∷ []))))
            (takes 0 5 (1 ∷ 2 ∷ []) _ (omega arith) refl))
          (types 1 6 (7 ∷ 8 ∷ 9 ∷ []) (omega arith) refl))
        (sends 1 (7 ∷ 8 ∷ []) ((9 ∷ []) ∷ []) _ (omega arith) refl refl))
      (writes 9 (7 ∷ 8 ∷ []) _ refl),
)

Reach-IsCopied_example :
    IsCopied scaled
      (run.0).read
      ((queues backlog).pending (run.0).channel 0)
      ((run.0).ports 0)
      ((run.0).lost 0)
Reach-IsCopied_example =
    Reach-IsCopied scaled (queues backlog) (pipe tx_queue) 2 0 clean_pairs run.0 0
      (λ j. clean_wire-IsClean) run.1

Reach-IsMerged_example :
    IsMerged scaled (queues backlog) (pipe tx_queue) run.0
    × ((i : ℕ) → IsOrdered scaled (sent_by i (run.0).arrived) ((run.0).typing i))
Reach-IsMerged_example =
    Reach-IsMerged scaled (queues backlog) (pipe tx_queue) 2 0 clean_pairs run.0
      (λ j. clean_wire-IsClean) run.1
