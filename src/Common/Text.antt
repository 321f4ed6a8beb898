-- ===== src/Common/Text.antt =====
-- Rust's `str` as a list of code points: widths, UTF-8, white space, slices, joins.
use ttyforge.Common.{
  ltb, leb, ◌==◌, if◌then◌else◌, Bytes, is_empty, All, ◌>>=◌, ℕ, ◌+◌, ◌-◌, ◌/◌, ◌%◌, ◌<◌, ◌≡◌, refl,
  ◌⊎◌, inl, inr, Bool, true, false, ◌&&◌, ◌||◌, Option, none, some, List, [], ◌∷◌, ◌++◌, arith,
}

abbrev pub Text : Type 0
Text = List ℕ

-- The bytes that UTF-8 takes for a code point.
unfoldable pub width : ℕ → ℕ
width c = if ltb c 128 then 1 else if ltb c 2048 then 2 else if ltb c 65536 then 3 else 4

abbrev pub utf8_char : ℕ → Bytes
utf8_char c =
    if ltb c 128
    then c ∷ []
    else if ltb c 2048
    then (192 + c / 64) ∷ (128 + c % 64) ∷ []
    else if ltb c 65536
    then (224 + c / 4096) ∷ (128 + c / 64 % 64) ∷ (128 + c % 64) ∷ []
    else (240 + c / 262144) ∷ (128 + c / 4096 % 64) ∷ (128 + c / 64 % 64) ∷ (128 + c % 64) ∷ []

unfoldable pub utf8 : Text → Bytes
utf8 [] = []
utf8 (c ∷ cs) = utf8_char c ++ utf8 cs

-- `str::len`: bytes, not characters.
unfoldable pub byte_len : Text → ℕ
byte_len [] = 0
byte_len (c ∷ cs) = width c + byte_len cs

-- `char::is_whitespace`: Unicode's White_Space.
unfoldable pub is_whitespace : ℕ → Bool
is_whitespace c =
    leb 9 c && leb c 13
    || c == 32
    || c == 0x85
    || c == 0xa0
    || c == 0x1680
    || leb 0x2000 c && leb c 0x200a
    || c == 0x2028
    || c == 0x2029
    || c == 0x202f
    || c == 0x205f
    || c == 0x3000

unfoldable pub trim_start : Text → Text
unfolding is_whitespace
trim_start [] = []
trim_start (c ∷ cs) = let rest = trim_start cs in if is_whitespace c then rest else c ∷ cs

unfoldable pub trim_end : Text → Text
unfolding is_whitespace
trim_end [] = []
trim_end (c ∷ cs) =
    let rest = trim_end cs in if is_empty rest && is_whitespace c then [] else c ∷ rest

unfoldable pub trim : Text → Text
unfolding trim_start trim_end
trim t = trim_end (trim_start t)

-- `str::strip_prefix`
unfoldable pub strip_prefix : Text → Text → Option Text
strip_prefix [] s = some s
strip_prefix (p ∷ ps) [] = none
strip_prefix (p ∷ ps) (c ∷ cs) = let rest = strip_prefix ps cs in if p == c then rest else none

-- `&t[..n]`; none where that panics, off a character's boundary or past the end.
unfoldable pub slice_to : ℕ → Text → Option Text
slice_to n [] = if n == 0 then some [] else none
slice_to n (c ∷ cs) =
    let rest = slice_to (n - width c) cs in
    if n == 0 then some [] else if leb (width c) n then (rest >>= λ t. some (c ∷ t)) else none

pub width-cases : (c : ℕ) → (width c ≡ 1) ⊎ (width c ≡ 2) ⊎ (2 < width c)
unfolding width
width-cases c = ground arith

pub width_ascii : (c : ℕ) → c < 128 → width c ≡ 1
unfolding width
width_ascii c h = ground arith

slice_to-zero : (t : Text) → slice_to 0 t ≡ some []
unfolding slice_to
slice_to-zero [] = refl
slice_to-zero (c ∷ t) = refl

-- `&t[..2]`, by the widths of the first characters.
pub slice_to_two :
    (c : ℕ) (t : Text)
    → slice_to 2 (c ∷ t) ≡ (
        if width c == 1
        then (slice_to 1 t >>= λ r. some (c ∷ r))
        else if width c == 2
        then some (c ∷ [])
        else none)
unfolding slice_to
slice_to_two c t = elim (width-cases c) [
  | inl e ↦ rw e
  | inr (inl e) ↦ rw (e, slice_to-zero)
  | inr (inr h) ↦ ground arith
]

pub slice_to_one :
    (c : ℕ) (t : Text) → slice_to 1 (c ∷ t) ≡ (if width c == 1 then some (c ∷ []) else none)
unfolding slice_to
slice_to_one c t = elim (width-cases c) [
  | inl e ↦ rw (e, slice_to-zero)
  | inr (inl e) ↦ rw e
  | inr (inr h) ↦ ground arith
]

abbrev pub to_ascii_lower : ℕ → ℕ
to_ascii_lower c = if leb b'A' c && leb c b'Z' then c + 32 else c

-- `eq_ignore_ascii_case`
unfoldable pub eq_ignore_ascii_case : Text → Text → Bool
eq_ignore_ascii_case [] [] = true
eq_ignore_ascii_case (a ∷ as_) (b ∷ bs) =
    to_ascii_lower a == to_ascii_lower b && eq_ignore_ascii_case as_ bs
eq_ignore_ascii_case _ _ = false

abbrev pub is_ascii_alphanumeric : ℕ → Bool
is_ascii_alphanumeric c =
    leb b'0' c && leb c b'9' || leb b'A' c && leb c b'Z' || leb b'a' c && leb c b'z'

-- `words.join(sep)`
unfoldable pub join : Text → List Text → Text
join sep [] = []
join sep (w ∷ []) = w
join sep (w ∷ v ∷ ws) = w ++ (sep ++ join sep (v ∷ ws))

abbrev pub IsAscii : Text → Type 0
IsAscii t = All (λ c. c < 128) t

-- ASCII text is its own encoding.
pub utf8_ascii : (t : Text) → IsAscii t → utf8 t ≡ t
unfolding utf8
utf8_ascii [] h = refl
utf8_ascii (c ∷ cs) h = ground (arith, utf8_ascii cs h.1)

-- `String::from_utf8_lossy`, of which only its effect on ASCII is relied on.
pub record Decoder : Type 0 where
  pub lossy : Bytes → Text
  pub lossy_ascii : (bytes : Bytes) → IsAscii bytes → lossy bytes ≡ bytes
