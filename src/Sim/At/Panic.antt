-- ===== src/Sim/At/Panic.antt =====
-- When the AT handler panics: `t[..2]` counts bytes.
use ttyforge.Common.{
  ◌==◌, if◌then◌else◌, codes, is_empty, ◌<◌, ◌≡◌, refl, ◌↔◌, ◌⊎◌, Bool, false, ◌&&◌, none, some, [],
  ◌∷◌, arith,
}
use ttyforge.Common.Text.{
  Text, width, byte_len, trim, width-cases, width_ascii, slice_to_two, slice_to_one, to_ascii_lower,
  eq_ignore_ascii_case, IsAscii,
}
use ttyforge.Sim.At.{answer, on_line}

-- The second byte of the trimmed line is inside a character.
abbrev pub CutsCharacter : Text → Type 0
CutsCharacter [] = ⊥
CutsCharacter (c ∷ []) = 2 < width c
CutsCharacter (c ∷ d ∷ t) = (2 < width c) ⊎ ((width c ≡ 1) × (1 < width d))

answer-none_iff : (t : Text) → (answer t ≡ none) ↔ CutsCharacter t
unfolding answer byte_len
answer-none_iff [] = (λ e. cc, λ e. absurd e)
answer-none_iff (c ∷ []) = ground (arith, width-cases c, slice_to_two c [])
answer-none_iff (c ∷ d ∷ t) =
    ground (arith, width-cases c, width-cases d, slice_to_two c (d ∷ t), slice_to_one d t)

-- The handler panics exactly on a line whose trimmed text has its byte 2 inside a character: a
-- first character of three bytes or more, or a longer one behind an ASCII one.
pub on_line-none_iff : (line : Text) → (on_line line ≡ none) ↔ CutsCharacter (trim line)
unfolding on_line
on_line-none_iff line = answer-none_iff (trim line)

abbrev pub starts_at : Text → Bool
starts_at (a ∷ t ∷ rest) = to_ascii_lower a == b'a' && to_ascii_lower t == b't'
starts_at _ = false

answer_ascii :
    (t : Text)
    → IsAscii t
    → answer t
      ≡ some (if is_empty t then [] else if starts_at t then codes "OK\r\n" else codes "ERROR\r\n")
unfolding answer byte_len eq_ignore_ascii_case
answer_ascii [] h = refl
answer_ascii (c ∷ []) h = ground (arith, width_ascii c h.0)
answer_ascii (c ∷ d ∷ t) h =
    ground (arith, width_ascii c h.0, width_ascii d h.1.0, slice_to_two c (d ∷ t), slice_to_one d t)

-- Where the trimmed line is ASCII the handler does not panic: a blank line is not answered, one
-- that starts with AT in either case is answered OK, any other ERROR.
pub on_line_ascii :
    (line : Text)
    → IsAscii (trim line)
    → on_line line
      ≡ some (
          if is_empty (trim line)
          then []
          else if starts_at (trim line)
          then codes "OK\r\n"
          else codes "ERROR\r\n")
unfolding on_line
on_line_ascii line h = answer_ascii (trim line) h
