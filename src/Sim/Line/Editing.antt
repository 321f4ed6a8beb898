-- ===== src/Sim/Line/Editing.antt =====
-- What the keys do: typing, line ends, rubbing out, abandoning.
use ttyforge.Common.{
  ◌==◌, Bytes, All, ◌>>=◌, ℕ, ◌≡◌, refl, sym, ap, ◌∙◌, Bool, true, false, not, ◌&&◌, Option, none,
  some, [], ◌∷◌, ◌++◌, append-nil, append_assoc, arith,
}
use ttyforge.Common.Text.{Decoder}
use ttyforge.Sim.Line.{
  LineHandler, LineDevice, pop, rub_out, crlf, behind, followed, end_line, feed_byte, feed,
}
use mathlib.Core.Path.{fun_ext}

-- A byte that is neither a line end, nor a rub-out, nor Ctrl-C.
abbrev pub is_plain : ℕ → Bool
is_plain b =
    not (b == b'\r') && not (b == b'\n') && not (b == 0x08) && not (b == 0x7f) && not (b == 0x03)

pop-concat : (bs : Bytes) (c : ℕ) → pop (bs ++ c ∷ []) ≡ bs
unfolding pop
pop-concat [] c = refl
pop-concat (b ∷ []) c = refl
pop-concat (b ∷ a ∷ bs) c = ap (◌∷◌ b) (pop-concat (a ∷ bs) c)

module _ {A : Type 0} where
  out_before : (o p : Bytes) (n : Option (A × Bytes)) → behind (o ++ p) n ≡ behind o (behind p n)
  out_before o p none = refl
  out_before o p (some (a, q)) = rw append_assoc

  followed_out :
      (o : Bytes) (m : Option (A × Bytes)) (g : A → Option (A × Bytes))
      → followed (behind o m) g ≡ behind o (followed m g)
  followed_out o none g = refl
  followed_out o (some (a, p)) g = out_before o p (g a)

  pub followed_assoc :
      (m : Option (A × Bytes)) (f g : A → Option (A × Bytes))
      → followed (followed m f) g ≡ followed m (λ a. followed (f a) g)
  followed_assoc none f g = refl
  followed_assoc (some (a, o)) f g = followed_out o (f a) g

  pub followed_nothing : (m : Option (A × Bytes)) → behind [] m ≡ m
  followed_nothing none = refl
  followed_nothing (some (a, o)) = refl

  pub followed_by_nothing : (m : Option (A × Bytes)) → followed m (λ a. some (a, [])) ≡ m
  followed_by_nothing none = refl
  followed_by_nothing (some (a, o)) = rw append-nil

module _ (dec : Decoder) {H : Type 0} (l : LineHandler H) where
  -- Input in two pieces is input in one: the second continues from where the first left the line,
  -- and its output follows.
  pub feed-append :
      (d : LineDevice H) (xs ys : Bytes)
      → feed dec l d (xs ++ ys) ≡ followed (feed dec l d xs) (λ d'. feed dec l d' ys)
  unfolding feed
  feed-append d [] ys = sym (followed_nothing (feed dec l d ys))
  feed-append d (b ∷ bs) ys =
      ap (followed (feed_byte dec l d b)) (fun_ext λ d'. feed-append d' bs ys)
      ∙ sym (followed_assoc (feed_byte dec l d b) (λ d'. feed dec l d' bs) (λ d'. feed dec l d' ys))

  -- Typed characters are echoed one by one and added to the line.
  pub feed_typed :
      (d : LineDevice H) (b : ℕ) (bs : Bytes)
      → All (λ c. is_plain c ≡ true) (b ∷ bs)
      → feed dec l d (b ∷ bs)
        ≡ some (record d { line = d.line ++ b ∷ bs; last_was_cr = false }, b ∷ bs)
  unfolding feed
  feed_typed d b [] h = ground arith
  feed_typed d b (c ∷ bs) h = ground (
    arith,
    feed_typed (record d { line = d.line ++ b ∷ []; last_was_cr = false }) c bs,
    append_assoc d.line (b ∷ []) (c ∷ bs),
  )

  feed_cr :
      (d : LineDevice H)
      → feed dec l d (b'\r' ∷ []) ≡ end_line dec l (record d { last_was_cr = false }) b'\r'
  unfolding feed
  feed_cr d = followed_by_nothing (end_line dec l (record d { last_was_cr = false }) b'\r')

  -- A line that was typed and ended by CR goes to the handler, whole and once, behind its echo.
  pub feed_line :
      (d : LineDevice H) (bs : Bytes)
      → All (λ c. is_plain c ≡ true) bs
      → d.line ≡ []
      → feed dec l d (bs ++ b'\r' ∷ []) ≡ (
          l.on_line d.handler (dec.lossy bs) >>= λ r. some (
            record { line = []; last_was_cr = true; handler = r.0 },
            bs ++ (crlf ++ (r.1 ++ l.prompt r.0)),
          ))
  unfolding end_line
  feed_line d [] h e = rw (feed_cr d, e)
  feed_line d (b ∷ bs) h e =
      rw (feed-append d (b ∷ bs) (b'\r' ∷ []), feed_typed d b bs h, e, feed_cr) (ground arith)

  -- The LF of a CRLF does nothing more than the CR did.
  pub feed_crlf :
      (d : LineDevice H)
      → feed dec l d (b'\r' ∷ b'\n' ∷ [])
        ≡ (feed dec l d (b'\r' ∷ []) >>= λ r. some (record (r.0) { last_was_cr = false }, r.1))
  unfolding feed end_line
  feed_crlf d = ground arith

  -- A rub-out takes back the character typed before it, on the line and on the screen.
  pub feed-rub_out :
      (d : LineDevice H) (c : ℕ)
      → is_plain c ≡ true
      → feed dec l d (c ∷ 0x7f ∷ []) ≡ some (record d { last_was_cr = false }, c ∷ rub_out)
  unfolding feed
  feed-rub_out d c h = ground (arith, pop-concat d.line c)
