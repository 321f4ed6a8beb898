-- ===== src/Pty/Descriptor.antt =====
-- `read_fd` and `write_all_fd` of src/forge/pty.rs, over what `read(2)` and `write(2)` return.
pub mod Written
use ttyforge.Common.{Bytes, take, drop, ℕ, List, [], ◌∷◌, ◌++◌}

-- A call of `write`: a count, or an error.
pub data Wrote : Type 0 where
  count : ℕ → Wrote
  would_block : Wrote
  error : Wrote

-- What `write_all_fd` has come to: done, its error, or still waiting with data left.
pub data Progress : Type 0 where
  all_written : Progress
  write_error : Progress
  left_over : Bytes → Progress

-- The loop over the results of `write`. A count above the length of the data would panic; the
-- kernel returns none.
unfoldable pub write_all_fd : Bytes → List Wrote → Progress
write_all_fd [] ws = all_written
write_all_fd (b ∷ bs) [] = left_over (b ∷ bs)
write_all_fd (b ∷ bs) (count n ∷ ws) = write_all_fd (drop n (b ∷ bs)) ws
write_all_fd (b ∷ bs) (would_block ∷ ws) = write_all_fd (b ∷ bs) ws
write_all_fd (b ∷ bs) (error ∷ ws) = write_error

-- A call of `read`, and what `read_fd` has come to.
pub data ReadCall : Type 0 where
  bytes_read : Bytes → ReadCall
  read_blocks : ReadCall
  read_error : ReadCall

pub data Reading : Type 0 where
  returned : Bytes → Reading
  failed_with_error : Reading
  still_waiting : Reading

unfoldable pub read_fd : List ReadCall → Reading
read_fd [] = still_waiting
read_fd (bytes_read bs ∷ rs) = returned bs
read_fd (read_blocks ∷ rs) = read_fd rs
read_fd (read_error ∷ rs) = failed_with_error

-- What the calls handed to the kernel.
unfoldable pub handed_over : Bytes → List Wrote → Bytes
handed_over [] ws = []
handed_over (b ∷ bs) [] = []
handed_over (b ∷ bs) (count n ∷ ws) = take n (b ∷ bs) ++ handed_over (drop n (b ∷ bs)) ws
handed_over (b ∷ bs) (would_block ∷ ws) = handed_over (b ∷ bs) ws
handed_over (b ∷ bs) (error ∷ ws) = []
