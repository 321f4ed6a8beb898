-- ===== src/Sim/Exec/Piped.antt =====
-- What a child behind the port receives and gives, and the status that its end leaves.
use ttyforge.Common.{
  if◌then◌else◌, Bytes, ℕ, zero, suc, ◌+◌, ◌*◌, min, max, ◌≡◌, refl, sym, ap, ◌∙◌, Bool, true,
  false, none, some, List, [], ◌∷◌, ◌++◌, append-nil, append_assoc,
}
use ttyforge.Wire.Float.{Float64}
use ttyforge.Wire.Plan.{WireSpec, Cell, plan}
use ttyforge.Wire.Plan.Payload.{payload}
use ttyforge.Wire.Delivery.{Read, no_consumer, got, read_failed, ms}
use ttyforge.Wire.Delivery.Recorded.{
  recorder, payload-append, IsClean, plan-IsClean, plan-payload_clean, deliver-IsClean,
}
use ttyforge.Run.{clamp_byte, find_child, failure_code, exit_code}
use ttyforge.Wire.Delivery.Clean.{build_pair-IsClean}
use ttyforge.Sim.Exec.{
  ChildRead, printed, ended, read_error, Feed, feed_cells, to_child_round, to_child,
  from_child_round, from_child, fed, ExecLoop, torn_down, ExitStatus, exited, signalled, code_of,
  child_ended, exec_result,
}

-- The bytes that the port gives before a read of it fails, and those that a child prints before its
-- stdout ends.
abbrev pub input_bytes : List Read → Bytes
input_bytes [] = []
input_bytes (no_consumer ∷ rs) = input_bytes rs
input_bytes (got bytes ∷ rs) = bytes ++ input_bytes rs
input_bytes (read_failed ∷ rs) = []

abbrev pub printed_bytes : List ChildRead → Bytes
printed_bytes [] = []
printed_bytes (printed bytes ∷ rs) = bytes ++ printed_bytes rs
printed_bytes (ended ∷ rs) = []
printed_bytes (read_error ∷ rs) = []

module _ (fl : Float64) where
  open fl use {F}

  -- A direction that is up, its wire clean, with `b` behind it.
  record IsFeeding (d : Feed F (List Cell)) (b : Bytes) : Type 0 where
    up : d.going ≡ true
    clean : IsClean fl d.wire
    behind : payload d.sink ≡ b

  module _ (flush : List Cell → List Cell × Bool) (keeps : (s : List Cell) → (flush s).0 ≡ s) where
    feed_cells-recorder :
        (now : ℕ) (cells log : List Cell)
        → let sent = feed_cells fl recorder flush now cells log in
          (sent.delivered ≡ true) × (payload sent.sink ≡ payload log ++ payload cells)
    unfolding feed_cells
    feed_cells-recorder now [] log = (refl, sym (append-nil (payload log)))
    feed_cells-recorder now (c ∷ cells) log =
        let at = max now c.due in
        let log' : List Cell = log ++ record { bytes = c.bytes; due = at } ∷ [] in
        let (d, e) = feed_cells-recorder at cells log' in
        rw (keeps log') (
          d,
          e
              ∙ ap (λ v. v ++ payload cells)
                  (payload-append log (record { bytes = c.bytes; due = at } ∷ []))
              ∙ rw (append-nil c.bytes) (append_assoc (payload log) c.bytes (payload cells)),
        )

    to_child_round-got :
        (d : Feed F (List Cell)) (bytes b : Bytes)
        → IsFeeding d b
        → IsFeeding (to_child_round fl recorder flush d (got bytes)) (b ++ bytes)
    unfolding to_child_round
    to_child_round-got d bytes b h =
        let (u, e) = feed_cells-recorder d.clock (plan fl d.clock d.wire bytes).1 d.sink in
        record {
          up = u;
          clean = plan-IsClean fl d.clock d.wire bytes h.clean;
          behind =
              e
              ∙ rw (h.behind)
                  (ap (λ v. b ++ v) (plan-payload_clean fl d.clock d.wire bytes h.clean));
        }

    -- A loop that is up takes the next read, and one that has broken no more.
    to_child-step :
        (d : Feed F (List Cell)) (r : Read) (rs : List Read)
        → d.going ≡ true
        → to_child fl recorder flush d (r ∷ rs)
          ≡ to_child fl recorder flush (to_child_round fl recorder flush d r) rs
    unfolding to_child
    to_child-step d r rs h =
        λ i. if h i then to_child fl recorder flush (to_child_round fl recorder flush d r) rs else d

    to_child_down :
        (d : Feed F (List Cell)) (rs : List Read)
        → d.going ≡ false
        → to_child fl recorder flush d rs ≡ d
    unfolding to_child
    to_child_down d [] h = refl
    to_child_down d (r ∷ rs) h =
        λ i. if h i then to_child fl recorder flush (to_child_round fl recorder flush d r) rs else d

    to_child-IsFeeding :
        (rs : List Read) (d : Feed F (List Cell)) (b : Bytes)
        → IsFeeding d b
        → payload (to_child fl recorder flush d rs).sink ≡ b ++ input_bytes rs
    unfolding to_child to_child_round
    to_child-IsFeeding [] d b h = h.behind ∙ sym (append-nil b)
    to_child-IsFeeding (no_consumer ∷ rs) d b h =
        ap (λ q. payload (q.sink)) (to_child-step d no_consumer rs h.up)
        ∙ to_child-IsFeeding rs (record d { clock = d.clock + 50 * ms }) b
            record { up = h.up; clean = h.clean; behind = h.behind }
    to_child-IsFeeding (got bytes ∷ rs) d b h =
        ap (λ q. payload (q.sink)) (to_child-step d (got bytes) rs h.up)
        ∙ to_child-IsFeeding rs (to_child_round fl recorder flush d (got bytes)) (b ++ bytes)
            (to_child_round-got d bytes b h)
        ∙ append_assoc b bytes (input_bytes rs)
    to_child-IsFeeding (read_failed ∷ rs) d b h =
        ap (λ q. payload (q.sink))
          (to_child-step d read_failed rs h.up ∙ to_child_down (record d { going = false }) rs refl)
        ∙ h.behind
        ∙ sym (append-nil b)

  from_child_round-printed :
      (d : Feed F (List Cell)) (bytes b : Bytes)
      → IsFeeding d b
      → IsFeeding (from_child_round fl recorder d (printed bytes)) (b ++ bytes)
  unfolding from_child_round
  from_child_round-printed d bytes b h =
      let (c, u, e) = deliver-IsClean fl d.clock d.wire bytes d.sink h.clean in
      record { up = u; clean = c; behind = e ∙ ap (λ v. v ++ bytes) h.behind }

  from_child-step :
      (d : Feed F (List Cell)) (r : ChildRead) (rs : List ChildRead)
      → d.going ≡ true
      → from_child fl recorder d (r ∷ rs)
        ≡ from_child fl recorder (from_child_round fl recorder d r) rs
  unfolding from_child
  from_child-step d r rs h =
      λ i. if h i then from_child fl recorder (from_child_round fl recorder d r) rs else d

  from_child_down :
      (d : Feed F (List Cell)) (rs : List ChildRead)
      → d.going ≡ false
      → from_child fl recorder d rs ≡ d
  unfolding from_child
  from_child_down d [] h = refl
  from_child_down d (r ∷ rs) h =
      λ i. if h i then from_child fl recorder (from_child_round fl recorder d r) rs else d

  -- The end of the child's stdout.
  from_child_over :
      (d : Feed F (List Cell)) (r : ChildRead) (rs : List ChildRead) (b : Bytes)
      → from_child_round fl recorder d r ≡ record d { going = false }
      → IsFeeding d b
      → payload (from_child fl recorder d (r ∷ rs)).sink ≡ b ++ []
  from_child_over d r rs b e h =
      ap (λ q. payload (q.sink))
        (from_child-step d r rs h.up
          ∙ ap (λ q. from_child fl recorder q rs) e
          ∙ from_child_down (record d { going = false }) rs refl)
      ∙ h.behind
      ∙ sym (append-nil b)

  from_child-IsFeeding :
      (rs : List ChildRead) (d : Feed F (List Cell)) (b : Bytes)
      → IsFeeding d b
      → payload (from_child fl recorder d rs).sink ≡ b ++ printed_bytes rs
  unfolding from_child from_child_round
  from_child-IsFeeding [] d b h = h.behind ∙ sym (append-nil b)
  from_child-IsFeeding (printed bytes ∷ rs) d b h =
      ap (λ q. payload (q.sink)) (from_child-step d (printed bytes) rs h.up)
      ∙ from_child-IsFeeding rs (from_child_round fl recorder d (printed bytes)) (b ++ bytes)
          (from_child_round-printed d bytes b h)
      ∙ append_assoc b bytes (printed_bytes rs)
  from_child-IsFeeding (ended ∷ rs) d b h = from_child_over d ended rs b refl h
  from_child-IsFeeding (read_error ∷ rs) d b h = from_child_over d read_error rs b refl h

  -- A child behind a port, over wires that drop and corrupt nothing, where a flush, whatever it
  -- reports, leaves what was written: the child's stdin has the first of the bytes that the port
  -- gave before a read of it failed, and the port has the first of those that the child printed
  -- before its stdout ended, in order and all of them but what the end of the run cuts off.
  pub exec_prefix :
      (flush : List Cell → List Cell × Bool) (spec : WireSpec F) (now : ℕ) (rs : List Read)
      (cs : List ChildRead) (stdin cut port cut' : Bytes)
      → ((s : List Cell) → (flush s).0 ≡ s)
      → spec.drop ≡ none
      → spec.corrupt ≡ none
      → ExecLoop fl flush spec now rs cs stdin cut port cut'
      → (stdin ++ cut ≡ input_bytes rs) × (port ++ cut' ≡ printed_bytes cs)
  unfolding fed
  exec_prefix flush spec now rs cs stdin cut port cut' keeps d c
        (torn_down {wire_in = w} {wire_out = w'} e s p) =
      let (cw, cw') = build_pair-IsClean fl now spec d c e in
      (
        s
            ∙ to_child-IsFeeding flush keeps rs (fed fl flush w now) []
                record { up = refl; clean = cw; behind = refl },
        p
            ∙ from_child-IsFeeding cs (fed fl flush w' now) []
                record { up = refl; clean = cw'; behind = refl },
      )

-- A child that exits with a code passes it on as the code of the process, and one that a signal
-- kills ends it with 0, as success does.
pub exit_code-exec_result :
    (s : ExitStatus)
    → exit_code (exec_result (child_ended s))
      ≡ some (elim s [ exited n ↦ min n 255 | signalled n ↦ 0 ])
unfolding exit_code failure_code find_child exec_result code_of clamp_byte
exit_code-exec_result (exited zero) = refl
exit_code-exec_result (exited (suc n)) = refl
exit_code-exec_result (signalled n) = refl
