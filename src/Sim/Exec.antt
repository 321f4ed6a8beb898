-- ===== src/Sim/Exec.antt =====
-- `exec_loop` of src/forge/sim.rs: a child process behind the port. What the reads give, whether a
-- flush fails and how the child ends are arguments.
pub mod Piped
use ttyforge.Common.{
  if◌then◌else◌, Bytes, ℕ, zero, ◌+◌, ◌*◌, max, ◌≡◌, Bool, true, false, Option, none, some, List,
  [], ◌∷◌, ◌++◌,
}
use ttyforge.Wire.Float.{Float64}
use ttyforge.Wire.Plan.{WireSpec, Cell, Wire, build_pair, plan}
use ttyforge.Wire.Plan.Payload.{payload}
use ttyforge.Wire.Delivery.{Sink, Sent, Read, no_consumer, got, read_failed, ms, deliver}
use ttyforge.Wire.Delivery.Recorded.{recorder}
use ttyforge.Run.{ℤ, pos, negsuc, child_exit, other_error, Outcome, ok, err}

-- What a read of the child's stdout gives.
pub data ChildRead : Type 0 where
  printed : Bytes → ChildRead
  ended : ChildRead
  read_error : ChildRead

-- A direction: its wire, its clock, where it writes, and whether its loop goes on.
pub record Feed (F S : Type 0) : Type 0 where
  pub wire : Wire F
  pub clock : ℕ
  pub sink : S
  pub going : Bool

module _ (fl : Float64) {S : Type 0} (k : Sink S) where
  open fl use {F}

  -- The cells of a read, each written and flushed at its instant; an error of `flush` is ignored.
  unfoldable pub feed_cells : (S → S × Bool) → ℕ → List Cell → S → Sent S
  feed_cells flush now [] s = record { sink = s; clock = now; delivered = true }
  feed_cells flush now (c ∷ cells) s =
      let at = max now c.due in
      let (s', done) = k.write_all at c.bytes s in
      let over = k.done_at at c.bytes s in
      let rest = feed_cells flush over cells (flush s').0 in
      if done then rest else record { sink = s'; clock = over; delivered = false }

  -- A round of the port-to-stdin loop.
  unfoldable pub to_child_round : (S → S × Bool) → Feed F S → Read → Feed F S
  unfolding feed_cells
  to_child_round flush d no_consumer = record d { clock = d.clock + 50 * ms }
  to_child_round flush d (got bytes) =
      let (w', cells) = plan fl d.clock d.wire bytes in
      let sent = feed_cells flush d.clock cells d.sink in
      record { wire = w'; clock = sent.clock; sink = sent.sink; going = sent.delivered }
  to_child_round flush d read_failed = record d { going = false }

  unfoldable pub to_child : (S → S × Bool) → Feed F S → List Read → Feed F S
  unfolding to_child_round
  to_child flush d [] = d
  to_child flush d (r ∷ rs) =
      let next = to_child flush (to_child_round flush d r) rs in if d.going then next else d

  -- A round of the stdout-to-port loop.
  unfoldable pub from_child_round : Feed F S → ChildRead → Feed F S
  unfolding deliver
  from_child_round d (printed bytes) =
      let (w', sent) = deliver fl k d.clock d.wire bytes d.sink in
      record { wire = w'; clock = sent.clock; sink = sent.sink; going = sent.delivered }
  from_child_round d ended = record d { going = false }
  from_child_round d read_error = record d { going = false }

  unfoldable pub from_child : Feed F S → List ChildRead → Feed F S
  unfolding from_child_round
  from_child d [] = d
  from_child d (r ∷ rs) =
      let next = from_child (from_child_round d r) rs in if d.going then next else d

module _ (fl : Float64) (flush : List Cell → List Cell × Bool) where
  open fl use {F}

  -- A direction, as it is set up.
  unfoldable pub fed : Wire F → ℕ → Feed F (List Cell)
  fed w now = record { wire = w; clock = now; sink = []; going = true }

  -- A run of `exec_loop` from the building of its wires to its end, by what its reads give: what is
  -- written to the child's stdin and to the port, each with what is cut off behind it. When the
  -- child has ended, or a signal has come, both directions are aborted, wherever in a delivery they
  -- are, and either may have ended before in a write that failed.
  pub data ExecLoop (spec : WireSpec F) (now : ℕ) (rs : List Read) (cs : List ChildRead)
      : Bytes → Bytes → Bytes → Bytes → Type 0 where
    torn_down :
        {wire_in wire_out : Wire F} {stdin cut port cut' : Bytes}
        → build_pair fl now spec ≡ some (wire_in, wire_out)
        → stdin ++ cut ≡ payload (to_child fl recorder flush (fed wire_in now) rs).sink
        → port ++ cut' ≡ payload (from_child fl recorder (fed wire_out now) cs).sink
        → ExecLoop spec now rs cs stdin cut port cut'

-- `ExitStatus` on Unix: an exit code, or the signal that killed the child.
pub data ExitStatus : Type 0 where
  exited : ℕ → ExitStatus
  signalled : ℕ → ExitStatus

-- `ExitStatus::code`, which has none for a signal.
unfoldable pub code_of : ExitStatus → Option ℤ
code_of (exited n) = some (pos n)
code_of (signalled n) = none

-- What the loop around `child.wait()` and the signals ends with.
pub data Waited : Type 0 where
  child_ended : ExitStatus → Waited
  wait_failed : Waited
  shut_down : Waited

abbrev code_or : Option ℤ → ℤ → ℤ
code_or none d = d
code_or (some c) d = c

-- The end of `exec_loop`.
unfoldable pub exec_result : Waited → Outcome (Unit {0})
unfolding code_of
exec_result shut_down = ok tt
exec_result wait_failed = err (other_error ∷ other_error ∷ [])
exec_result (child_ended (exited zero)) = ok tt
exec_result (child_ended status) = err (child_exit (code_or (code_of status) (negsuc 0)) ∷ [])
