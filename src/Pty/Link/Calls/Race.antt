-- ===== src/Pty/Link/Calls/Race.antt =====
-- Processes that find the same stale path, with `try_claim_link` of src/forge/pty.rs.
use ttyforge.Common.{ℕ, ◌≡◌, refl, List, [], ◌∷◌}
use ttyforge.Common.Text.{Text}
use ttyforge.Pty.Link.{made, already_exists, Files, claimed}
use ttyforge.Pty.Link.Retry.{IsStale, cleared}
use ttyforge.Pty.Link.Calls.{linking, ended, call, turns}

-- Both have found the stale sidecar before either removes it; the one removes it and links the path,
-- and the other then removes that link.
abbrev pub late_removal : List ℕ
late_removal = 0 ∷ 1 ∷ 0 ∷ 1 ∷ 0 ∷ 1 ∷ 0 ∷ 0 ∷ 0 ∷ 1 ∷ 1 ∷ 1 ∷ []

module _ {S : Type 0} (fs : Files S) (path : Text) (slaves : ℕ → Text) where
  -- Two processes that claim a stale path at once can both be told that they have it: where both
  -- found it stale before either removed it, the second removes the link that the first has made,
  -- and the link that is there in the end is the second one's.
  pub turns_shared :
      (s a b : S)
      → fs.symlink (slaves 0) path s ≡ (s, already_exists)
      → fs.symlink (slaves 1) path s ≡ (s, already_exists)
      → IsStale fs path s
      → fs.symlink (slaves 0) path (cleared fs path s) ≡ (a, made)
      → fs.symlink (slaves 1) path (cleared fs path a) ≡ (b, made)
      → let c = turns fs path slaves late_removal (record { phase = λ k. linking; files = s }) in
        (c.phase 0 ≡ ended claimed) × (c.phase 1 ≡ ended claimed) × (c.files ≡ b)
  unfolding turns call
  turns_shared s a b e1 e2 h e3 e4 = rw (e1, e2, h, e3, e4) (refl, refl, refl)
