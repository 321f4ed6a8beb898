-- ===== src/Pty/Descriptor/Written.antt =====
-- What `write_all_fd` writes: a prefix of the data, and all of it when it returns.
use ttyforge.Common.{
  Bytes, length, take, drop, take-append-drop, length-drop, All, ◌≤◌, ◌≡◌, refl, ap, ◌∙◌, ◌≢◌, List,
  [], ◌∷◌, ◌++◌, append_assoc, arith,
}
use ttyforge.Pty.Descriptor.{
  Wrote, count, would_block, error, Progress, all_written, write_error, left_over, write_all_fd,
  handed_over,
}

abbrev pub unwritten : Progress → Bytes
unwritten all_written = []
unwritten write_error = []
unwritten (left_over bs) = bs

-- When it returns without an error, the calls were handed the data, all of it and in order; while
-- it waits, what they were handed and what is left are the data.
pub write_all_fd_lem :
    (data_ : Bytes) (ws : List Wrote)
    → write_all_fd data_ ws ≢ write_error
    → handed_over data_ ws ++ unwritten (write_all_fd data_ ws) ≡ data_
unfolding write_all_fd handed_over
write_all_fd_lem [] ws h = refl
write_all_fd_lem (b ∷ bs) [] h = refl
write_all_fd_lem (b ∷ bs) (count n ∷ ws) h =
    append_assoc (take n (b ∷ bs)) (handed_over (drop n (b ∷ bs)) ws) _
    ∙ ap (λ r. take n (b ∷ bs) ++ r) (write_all_fd_lem (drop n (b ∷ bs)) ws h)
    ∙ take-append-drop n (b ∷ bs)
write_all_fd_lem (b ∷ bs) (would_block ∷ ws) h = write_all_fd_lem (b ∷ bs) ws h
write_all_fd_lem (b ∷ bs) (error ∷ ws) h = absurd (h refl)

-- Calls that neither fail nor write nothing, as many as there are bytes, are enough.
abbrev pub Advances : List Wrote → Type 0
Advances = All (λ w. elim w [ count n ↦ 1 ≤ n | would_block ↦ ⊥ | error ↦ ⊥ ])

pub write_all_fd-done :
    (data_ : Bytes) (ws : List Wrote)
    → Advances ws
    → length data_ ≤ length ws
    → write_all_fd data_ ws ≡ all_written
unfolding write_all_fd
write_all_fd-done [] ws a l = refl
write_all_fd-done (b ∷ bs) [] a l = absurd (omega (arith, l))
write_all_fd-done (b ∷ bs) (count n ∷ ws) (pos, a) l =
    write_all_fd-done (drop n (b ∷ bs)) ws a (omega (arith, l, pos, length-drop n (b ∷ bs)))
write_all_fd-done (b ∷ bs) (would_block ∷ ws) (h, a) l = absurd h
write_all_fd-done (b ∷ bs) (error ∷ ws) (h, a) l = absurd h
