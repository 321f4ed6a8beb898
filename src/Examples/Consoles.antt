-- ===== src/Examples/Consoles.antt =====
-- The AT modem on a line that is no ASCII.
use ttyforge.Common.{◌≡◌, ◌↔◌, none, [], ◌∷◌}
use ttyforge.Common.Text.{Text, trim}
use ttyforge.Sim.At.{on_line}
use ttyforge.Sim.At.Panic.{CutsCharacter, on_line-none_iff}

-- What the decoder makes of a byte 0xFF, twice.
abbrev replaced : Text
replaced = 0xfffd ∷ 0xfffd ∷ []

on_line-none_iff_example : (on_line replaced ≡ none) ↔ CutsCharacter (trim replaced)
on_line-none_iff_example = on_line-none_iff replaced
