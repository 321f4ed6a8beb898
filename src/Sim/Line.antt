-- ===== src/Sim/Line.antt =====
-- `LineDevice` of src/forge/sim.rs: the line discipline shared by the line-oriented presets, over a
-- handler of whole lines. `none` is a panic of the handler.
pub mod Editing
use ttyforge.Common.{
  ◌==◌, if◌then◌else◌, Bytes, is_empty, ◌>>=◌, ℕ, Bool, false, ◌&&◌, ◌||◌, Option, none, some, [],
  ◌∷◌, ◌++◌,
}
use ttyforge.Common.Text.{Text, Decoder}

-- `trait LineHandler`.
pub record LineHandler (H : Type 0) : Type 0 where
  pub prompt : H → Bytes
  pub on_line : H → Text → Option (H × Bytes)

pub record LineDevice (H : Type 0) : Type 0 where
  pub line : Bytes
  pub last_was_cr : Bool
  pub handler : H

-- `Vec::pop`, without the element.
unfoldable pub pop : Bytes → Bytes
pop [] = []
pop (b ∷ []) = []
pop (b ∷ c ∷ bs) = b ∷ pop (c ∷ bs)

abbrev pub rub_out : Bytes
rub_out = 8 ∷ b' ' ∷ 8 ∷ []

abbrev pub crlf : Bytes
crlf = b'\r' ∷ b'\n' ∷ []

unfoldable pub new : {H : Type 0} → H → LineDevice H
new handler = record { line = []; last_was_cr = false; handler = handler }

-- A result with `o` put in front of its output.
abbrev pub behind : {A : Type 0} → Bytes → Option (A × Bytes) → Option (A × Bytes)
behind o none = none
behind o (some (a, p)) = some (a, o ++ p)

-- A second action behind a first, its output behind the first's.
abbrev pub followed :
    {A : Type 0} → Option (A × Bytes) → (A → Option (A × Bytes)) → Option (A × Bytes)
followed none f = none
followed (some (a, o)) f = behind o (f a)

module _ (dec : Decoder) {H : Type 0} (l : LineHandler H) where
  unfoldable pub greeting : LineDevice H → Bytes
  greeting d = l.prompt d.handler

  -- CR or LF: the line is taken and handed to the handler.
  unfoldable pub end_line : LineDevice H → ℕ → Option (LineDevice H × Bytes)
  end_line d b = do
    r ← l.on_line d.handler (dec.lossy d.line)
    some (
      record { line = []; last_was_cr = b == b'\r'; handler = r.0 },
      crlf ++ (r.1 ++ l.prompt r.0),
    )

  -- The body of `feed`'s loop; `d` has its `last_was_cr` cleared, `was_cr` is what it was.
  unfoldable pub edit : Bool → LineDevice H → ℕ → Option (LineDevice H × Bytes)
  edit was_cr d b =
      if b == b'\n' && was_cr
      then some (d, [])
      else if b == b'\r' || b == b'\n'
      then end_line d b
      else if b == 0x08 || b == 0x7f
      then some (record d { line = pop d.line }, if is_empty d.line then [] else rub_out)
      else if b == 0x03
      then some (record d { line = [] }, b'^' ∷ b'C' ∷ (crlf ++ l.prompt d.handler))
      else some (record d { line = d.line ++ b ∷ [] }, b ∷ [])

  unfoldable pub feed_byte : LineDevice H → ℕ → Option (LineDevice H × Bytes)
  unfolding edit
  feed_byte d b = edit d.last_was_cr (record d { last_was_cr = false }) b

  unfoldable pub feed : LineDevice H → Bytes → Option (LineDevice H × Bytes)
  unfolding feed_byte
  feed d [] = some (d, [])
  feed d (b ∷ bs) = followed (feed_byte d b) (λ d'. feed d' bs)
