-- ===== src/Sim/Shell/Commands/Rejoin.antt =====
-- The pieces of a line joined again, and commands joined by `;` split again.
use ttyforge.Common.{
  ◌==◌, Bool-cases, is_empty, All, ℕ, ◌≡◌, refl, ◌∙◌, inl, inr, Bool, true, false, not, ◌&&◌, List,
  [], ◌∷◌, ◌++◌, append-nil, append_assoc, arith,
}
use ttyforge.Common.Text.{Text, trim, join}
use ttyforge.Sim.Shell.Words.{single_quote, double_quote}
use ttyforge.Sim.Shell.Commands.{
  Splitter, keep, split_char, split_from, unsplit, pieces, retain_commands, split_commands,
}
use mathlib.Core.Path.{subst}

-- A piece that grows by a character.
join-grow :
    (ws : List Text) (w : Text) (c : ℕ)
    → join (b';' ∷ []) (ws ++ (w ++ c ∷ []) ∷ []) ≡ join (b';' ∷ []) (ws ++ w ∷ []) ++ c ∷ []
unfolding join
join-grow [] w c = refl
join-grow (v ∷ []) w c = rw (append_assoc v (b';' ∷ w) (c ∷ []))
join-grow (v ∷ u ∷ ws) w c =
    rw
      (join-grow (u ∷ ws) w c, append_assoc v (b';' ∷ join (b';' ∷ []) (u ∷ ws ++ w ∷ [])) (c ∷ []))

-- A piece that ends.
join-open :
    (ws : List Text) (w : Text)
    → join (b';' ∷ []) ((ws ++ w ∷ []) ++ [] ∷ []) ≡ join (b';' ∷ []) (ws ++ w ∷ []) ++ b';' ∷ []
unfolding join
join-open [] w = refl
join-open (v ∷ []) w = rw (append_assoc v (b';' ∷ w) (b';' ∷ []))
join-open (v ∷ u ∷ ws) w =
    rw (
      join-open (u ∷ ws) w,
      append_assoc v (b';' ∷ join (b';' ∷ []) (u ∷ ws ++ w ∷ [])) (b';' ∷ []),
    )

show_semicolon : (c : ℕ) (b : Bool) → (c == b';' && b) ≡ true → c ≡ b';'
show_semicolon c b h = ground arith

-- The text read so far.
abbrev read_back : Splitter → Text
read_back s = join (b';' ∷ []) (s.cmds ++ s.cur ∷ [])

split_char-read_back : (s : Splitter) (c : ℕ) → read_back (split_char s c) ≡ read_back s ++ c ∷ []
unfolding split_char
split_char-read_back s c = elim (Bool-cases (c == single_quote && not s.in_d)) [
  | inl e ↦ rw e (join-grow s.cmds s.cur c)
  | inr n ↦ elim (Bool-cases (c == double_quote && not s.in_s)) [
    | inl e ↦ rw (n, e) (join-grow s.cmds s.cur c)
    | inr m ↦ elim (Bool-cases (c == b';' && (not s.in_s && not s.in_d))) [
      | inl e ↦ rw (n, m, e) (rw (show_semicolon c _ e) (join-open s.cmds s.cur))
      | inr o ↦ rw (n, m, o) (join-grow s.cmds s.cur c)
    ]
  ]
]

split_from-read_back :
    (s : Splitter) (line : Text) → read_back (split_from s line) ≡ read_back s ++ line
unfolding split_from
split_from-read_back s [] = rw (append-nil (read_back s))
split_from-read_back s (c ∷ cs) = rw (
  split_from-read_back (split_char s c) cs,
  split_char-read_back s c,
  append_assoc (read_back s) (c ∷ []) cs,
)

-- Joined by `;`, the pieces of a line are the line: nothing is lost, quotes included.
pub join-pieces : (line : Text) → join (b';' ∷ []) (pieces line) ≡ line
unfolding pieces join
join-pieces line = split_from-read_back unsplit line

-- A text without quotes and `;`.
abbrev pub IsBare : Text → Type 0
IsBare =
    All (λ c. ((c == b';') ≡ false) × ((c == single_quote) ≡ false) × ((c == double_quote) ≡ false))

split_char-bare :
    (s : Splitter) (c : ℕ)
    → (c == b';') ≡ false
    → (c == single_quote) ≡ false
    → (c == double_quote) ≡ false
    → split_char s c ≡ keep s c
unfolding split_char
split_char-bare s c a b d = rw (b, d, a) refl

split_from-bare :
    (s : Splitter) (w rest : Text)
    → IsBare w
    → split_from s (w ++ rest) ≡ split_from (record s { cur = s.cur ++ w }) rest
unfolding split_from
split_from-bare s [] rest h = rw (append-nil s.cur)
split_from-bare s (c ∷ w) rest ((a, b, d), h) =
    (λ i. split_from (split_char-bare s c a b d i) (w ++ rest))
    ∙ split_from-bare (keep s c) w rest h
    ∙ (λ i. split_from (record s { cur = append_assoc s.cur (c ∷ []) w i }) rest)

abbrev finish : Splitter → List Text
finish s = s.cmds ++ s.cur ∷ []

abbrev behind_pieces : List Text → Splitter
behind_pieces pre = record unsplit { cmds = pre }

finish-join :
    (pre : List Text) (w : Text) (ws : List Text)
    → All IsBare (w ∷ ws)
    → finish (split_from (behind_pieces pre) (join (b';' ∷ []) (w ∷ ws))) ≡ pre ++ w ∷ ws
unfolding join split_from split_char
finish-join pre w [] h =
    subst (λ t. finish (split_from (behind_pieces pre) t) ≡ pre ++ w ∷ []) (append-nil w)
      (rw (split_from-bare (behind_pieces pre) w [] h.0) refl)
finish-join pre w (v ∷ ws) h = rw (
  split_from-bare (behind_pieces pre) w (b';' ∷ join (b';' ∷ []) (v ∷ ws)) h.0,
  finish-join (pre ++ w ∷ []) v ws h.1,
  append_assoc pre (w ∷ []) (v ∷ ws),
)

abbrev IsCommand : Text → Type 0
IsCommand c = IsBare c × (is_empty (trim c) ≡ false)

retain_commands-All : (cs : List Text) → All IsCommand cs → retain_commands cs ≡ cs
unfolding retain_commands
retain_commands-All [] h = refl
retain_commands-All (c ∷ cs) h = rw (h.0.1, retain_commands-All cs h.1)

All-IsBare : (cs : List Text) → All IsCommand cs → All IsBare cs
All-IsBare [] h = tt
All-IsBare (c ∷ cs) h = (h.0.0, All-IsBare cs h.1)

-- Commands without quotes and `;`, none of them blank, joined by `;` split into the same commands.
pub split_commands-join :
    (c : Text) (cs : List Text)
    → All IsCommand (c ∷ cs)
    → split_commands (join (b';' ∷ []) (c ∷ cs)) ≡ c ∷ cs
unfolding split_commands pieces
split_commands-join c cs h =
    rw (finish-join [] c cs (All-IsBare (c ∷ cs) h)) (retain_commands-All (c ∷ cs) h)
