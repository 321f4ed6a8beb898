-- ===== src/Mux/Channels.antt =====
-- The two channels of src/forge/mux.rs. They are tokio's, and these are the parts of their
-- documentation that the mux relies on.
use ttyforge.Common.{Bytes, length, ℕ, ◌<◌, ◌≡◌, ◌≢◌, Option, some, List, [], ◌∷◌, ◌++◌}
use ttyforge.Mux.{Recv, chunk, lagged}

unfoldable pub backlog : ℕ
backlog = 256

unfoldable pub tx_queue : ℕ
tx_queue = 64

-- `tokio::sync::broadcast` with what each receiver has still to take. `run` keeps a sender, so that
-- the channel is never closed. A receiver that is more than `capacity` behind loses the oldest and is told how many; `none` is one
-- that waits.
pub record Broadcast (capacity : ℕ) : Type 1 where
  pub Channel : Type 0
  pub fresh : Channel
  pub pending : Channel → ℕ → List Bytes
  pub send : Bytes → Channel → Channel
  pub recv : ℕ → Channel → Option (Recv × Channel)
  pub pending-fresh : (i : ℕ) → pending fresh i ≡ []
  pub pending-send :
      (b : Bytes) (c : Channel) (i : ℕ) → pending (send b c) i ≡ pending c i ++ b ∷ []
  pub recv-chunk :
      (i : ℕ) (b : Bytes) (c c' : Channel)
      → recv i c ≡ some (chunk b, c')
      → pending c i ≡ b ∷ pending c' i
  pub recv-lagged :
      (i n : ℕ) (c c' : Channel)
      → recv i c ≡ some (lagged n, c')
      → (lost : List Bytes) × (pending c i ≡ lost ++ pending c' i)
        × (length lost ≡ n)
        × (length (pending c' i) ≡ capacity)
  pub recv-others :
      (i j : ℕ) (r : Recv) (c c' : Channel)
      → recv i c ≡ some (r, c')
      → i ≢ j
      → pending c' j ≡ pending c j

-- `tokio::sync::mpsc`: a queue in the order of sending, of `capacity` at most. A `send` to a full
-- queue and a `recv` from an empty one wait: `none`.
pub record Mpsc (capacity : ℕ) : Type 1 where
  pub Queue : Type 0
  pub empty : Queue
  pub queued : Queue → List Bytes
  pub push : Bytes → Queue → Option Queue
  pub pop : Queue → Option (Bytes × Queue)
  pub queued-empty : queued empty ≡ []
  pub queued-push :
      (b : Bytes) (q q' : Queue)
      → push b q ≡ some q'
      → (queued q' ≡ queued q ++ b ∷ []) × (length (queued q) < capacity)
  pub queued-pop : (b : Bytes) (q q' : Queue) → pop q ≡ some (b, q') → queued q ≡ b ∷ queued q'
