-- ===== src/Sim/At.antt =====
-- `AtHandler` of src/forge/sim.rs, the AT modem preset.
pub mod Panic
use ttyforge.Common.{leb, if◌then◌else◌, Bytes, codes, is_empty, ◌>>=◌, Option, some, []}
use ttyforge.Common.Text.{Text, byte_len, trim, slice_to, eq_ignore_ascii_case}
use ttyforge.Sim.Line.{LineHandler}

-- `on_line` on the trimmed line; none where `t[..2]` is no slice of characters, which panics.
unfoldable pub answer : Text → Option Bytes
answer t =
    let sliced = slice_to 2 t >>= λ head.
    some (if eq_ignore_ascii_case head (codes "at") then codes "OK\r\n" else codes "ERROR\r\n") in
    if is_empty t then some [] else if leb 2 (byte_len t) then sliced else some (codes "ERROR\r\n")

unfoldable pub on_line : Text → Option Bytes
unfolding answer
on_line line = answer (trim line)

-- The handler has no state and no prompt.
unfoldable pub at_handler : LineHandler (Unit {0})
unfolding on_line
at_handler = record { prompt = λ h. []; on_line = λ h line. on_line line >>= λ out. some (h, out) }
