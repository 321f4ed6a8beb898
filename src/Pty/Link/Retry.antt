-- ===== src/Pty/Link/Retry.antt =====
-- The retry of `try_claim_link`: when it ends, what it removes, and when it never ends.
use ttyforge.Common.{ℕ, zero, suc, ◌≡◌, refl, ap, ◌∙◌, ◌≢◌, Bool, true, false, Option, none, some}
use ttyforge.Common.Text.{Text}
use ttyforge.Pty.Link.{
  made, already_exists, Files, sidecar, pid_sidecar_is_stale, is_stale, claimed, busy,
  reclaim_if_stale, retry, attempt, try_claim_link,
}

module _ {S : Type 0} (fs : Files S) where
  -- The sidecar of the path says that its owner is gone.
  abbrev pub IsStale : Text → S → Type 0
  IsStale path s =
      pid_sidecar_is_stale (fs.read_to_string (sidecar path) s) (λ pid. fs.process_alive pid s)
      ≡ some true

  -- The state behind the removal of a path and its sidecar.
  abbrev pub cleared : Text → S → S
  cleared path s = (fs.remove_file (sidecar path) (fs.remove_file path s).0).0

  reclaim-stale :
      (path : Text) (s : S) → IsStale path s → reclaim_if_stale fs path s ≡ (cleared path s, true)
  unfolding reclaim_if_stale
  reclaim-stale path s h = rw h refl

  is_stale-true : (o : Option Bool) → is_stale o ≡ true → o ≡ some true
  is_stale-true none h = cc
  is_stale-true (some true) h = refl
  is_stale-true (some false) h = cc

  pub is_stale-false : (o : Option Bool) → o ≢ some true → is_stale o ≡ false
  is_stale-false none h = refl
  is_stale-false (some true) h = absurd (h refl)
  is_stale-false (some false) h = refl

  reclaim-live : (path : Text) (s : S) → ¬ IsStale path s → reclaim_if_stale fs path s ≡ (s, false)
  unfolding reclaim_if_stale
  reclaim-live path s h = rw (is_stale-false _ h) refl

  -- The loop behind a `symlink` that found something there.
  found :
      (f : ℕ) (path slave : Text) (s s' : S)
      → fs.symlink slave path s ≡ (s', already_exists)
      → try_claim_link fs (suc f) path slave s
        ≡ retry fs (reclaim_if_stale fs path s') (λ v. try_claim_link fs f path slave v)
  unfolding try_claim_link attempt
  found f path slave s s' e = ap (λ r. attempt fs path r (λ v. try_claim_link fs f path slave v)) e

  found_stale :
      (f : ℕ) (path slave : Text) (s s' : S)
      → fs.symlink slave path s ≡ (s', already_exists)
      → IsStale path s'
      → try_claim_link fs (suc f) path slave s ≡ try_claim_link fs f path slave (cleared path s')
  unfolding retry
  found_stale f path slave s s' e h =
      found f path slave s s' e
      ∙ ap (λ r. retry fs r (λ v. try_claim_link fs f path slave v)) (reclaim-stale path s' h)

  kept :
      (path : Text) (s : S)
      → fs.remove_file path s ≡ (s, false)
      → fs.remove_file (sidecar path) s ≡ (s, false)
      → cleared path s ≡ s
  kept path s r q = ap (λ v. (fs.remove_file (sidecar path) v.0).0) r ∙ ap (λ v. v.0) q

  -- A link that exists is left alone, and so is the rest of the file system, unless its sidecar
  -- names a process that is gone: no sidecar, one that is no number, and a process that may be
  -- alive all count as busy.
  try_claim-live :
      (f : ℕ) (path slave : Text) (s s' : S)
      → fs.symlink slave path s ≡ (s', already_exists)
      → ¬ IsStale path s'
      → try_claim_link fs (suc f) path slave s ≡ some (s', busy)
  unfolding retry
  try_claim-live f path slave s s' e h =
      found f path slave s s' e
      ∙ ap (λ r. retry fs r (λ v. try_claim_link fs f path slave v)) (reclaim-live path s' h)

  -- A stale link is cleared and claimed in two rounds, where a cleared path can be linked.
  try_claim-stale :
      (f : ℕ) (path slave : Text) (s s' s'' : S)
      → fs.symlink slave path s ≡ (s', already_exists)
      → IsStale path s'
      → fs.symlink slave path (cleared path s') ≡ (s'', made)
      → try_claim_link fs (suc (suc f)) path slave s ≡ some (s'', claimed)
  unfolding try_claim_link attempt
  try_claim-stale f path slave s s' s'' e h again =
      found_stale (suc f) path slave s s' e h
      ∙ ap (λ r. attempt fs path r (λ v. try_claim_link fs f path slave v)) again

  -- Where a path is taken, its sidecar is stale and the removals of both change nothing, no number
  -- of rounds ends the loop: their errors are ignored and the same path is tried for ever.
  pub try_claim_spins :
      (f : ℕ) (path slave : Text) (s : S)
      → fs.symlink slave path s ≡ (s, already_exists)
      → IsStale path s
      → fs.remove_file path s ≡ (s, false)
      → fs.remove_file (sidecar path) s ≡ (s, false)
      → try_claim_link fs f path slave s ≡ none
  unfolding try_claim_link
  try_claim_spins zero path slave s e h r q = refl
  try_claim_spins (suc f) path slave s e h r q =
      found_stale f path slave s s e h
      ∙ ap (λ v. try_claim_link fs f path slave v) (kept path s r q)
      ∙ try_claim_spins f path slave s e h r q
