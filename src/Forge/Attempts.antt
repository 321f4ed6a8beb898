-- ===== src/Forge/Attempts.antt =====
-- What the attempts to claim a path do to the directory.
use ttyforge.Common.{
  if◌then◌else◌, ℕ, zero, suc, ◌≡◌, refl, inl, inr, Bool, true, false, Option, none, some,
}
use ttyforge.Common.Text.{Text}
use ttyforge.Pty.Link.{
  Made, made, already_exists, not_made, Files, sidecar, pid_sidecar_is_stale, is_stale, Claim,
  claimed, busy, failed, reclaim_if_stale, retry, attempt, try_claim_link, drop_link,
}
use ttyforge.Forge.Tidy.{
  HasDirectory, Nothing, Nothing-any, was, held, Adds, Adds-none, Adds-trans, remove_file-Adds,
}

module _ {S : Type 0} (fs : Files S) (d : HasDirectory S fs) where
  -- What a claim should come to: it holds the path that it has claimed, or nothing.
  abbrev pub Holds : S → S × Claim → Text → Type 0
  Holds s (s', claimed) path = Adds fs d (λ p. p ≡ path) s s'
  Holds s (s', busy) path = Adds fs d Nothing s s'
  Holds s (s', failed) path = Adds fs d Nothing s s'

  abbrev pub HoldsIf : S → Option (S × Claim) → Text → Type 0
  HoldsIf s none path = Unit {0}
  HoldsIf s (some r) path = Holds s r path

  -- What `symlink` did, where it did not make the link.
  not_made-Adds :
      (target path : Text) (s s' : S) (m : Made)
      → fs.symlink target path s ≡ (s', m)
      → (m ≡ made → ⊥)
      → Adds fs d Nothing s s'
  not_made-Adds target path s s' m e n p h = elim (d.symlink_adds target path s s' m p e h) [
    | inl was_there ↦ was was_there
    | inr (made_it, _) ↦ absurd (n made_it)
  ]

  made-Adds :
      (target path : Text) (s s' : S) (m : Made)
      → fs.symlink target path s ≡ (s', m)
      → Adds fs d (λ p. p ≡ path) s s'
  made-Adds target path s s' m e p h = elim (d.symlink_adds target path s s' m p e h) [
    | inl was_there ↦ was was_there
    | inr (_, here) ↦ held here
  ]

  cleared-Adds :
      (b : Bool) (path : Text) (s : S)
      → let r : S × Bool = if b then (drop_link fs path s, true) else (s, false) in
        Adds fs d Nothing s r.0
  unfolding drop_link
  cleared-Adds true path s =
      remove_file-Adds fs d Nothing (sidecar path) s _
        (remove_file-Adds fs d Nothing path s s (Adds-none fs d Nothing s))
  cleared-Adds false path s = Adds-none fs d Nothing s

  reclaim_if_stale-Adds : (path : Text) (s : S) → Adds fs d Nothing s (reclaim_if_stale fs path s).0
  unfolding reclaim_if_stale drop_link
  reclaim_if_stale-Adds path s =
      cleared-Adds
        (is_stale (
          pid_sidecar_is_stale (fs.read_to_string (sidecar path) s)
            (λ pid. fs.process_alive pid s)))
        path s

  HoldsIf-trans :
      (s s' : S) (o : Option (S × Claim)) (path : Text)
      → Adds fs d Nothing s s'
      → HoldsIf s' o path
      → HoldsIf s o path
  HoldsIf-trans s s' none path a h = tt
  HoldsIf-trans s s' (some (u, claimed)) path a h =
      Adds-trans fs d Nothing (λ p. p ≡ path) s s' u (Nothing-any (λ p. p ≡ path)) a h
  HoldsIf-trans s s' (some (u, busy)) path a h =
      Adds-trans fs d Nothing Nothing s s' u (Nothing-any Nothing) a h
  HoldsIf-trans s s' (some (u, failed)) path a h =
      Adds-trans fs d Nothing Nothing s s' u (Nothing-any Nothing) a h

  retry-HoldsIf :
      (s : S) (r : S × Bool) (again : S → Option (S × Claim)) (path : Text)
      → Adds fs d Nothing s r.0
      → ((u : S) → HoldsIf u (again u) path)
      → HoldsIf s (retry fs r again) path
  unfolding retry
  retry-HoldsIf s (s', true) again path a h = HoldsIf-trans s s' (again s') path a (h s')
  retry-HoldsIf s (s', false) again path a h = a

  attempt-HoldsIf :
      (target path : Text) (s : S) (r : S × Made) (again : S → Option (S × Claim))
      → fs.symlink target path s ≡ r
      → ((u : S) → HoldsIf u (again u) path)
      → HoldsIf s (attempt fs path r again) path
  unfolding attempt
  attempt-HoldsIf target path s (s', made) again e h = made-Adds target path s s' made e
  attempt-HoldsIf target path s (s', already_exists) again e h =
      retry-HoldsIf s (reclaim_if_stale fs path s') again path
        (Adds-trans fs d Nothing Nothing s s' _ (Nothing-any Nothing)
          (not_made-Adds target path s s' already_exists e (λ x. cc))
          (reclaim_if_stale-Adds path s'))
        h
  attempt-HoldsIf target path s (s', not_made) again e h =
      not_made-Adds target path s s' not_made e (λ x. cc)

  pub try_claim_link-HoldsIf :
      (f : ℕ) (path slave : Text) (s : S) → HoldsIf s (try_claim_link fs f path slave s) path
  unfolding try_claim_link
  try_claim_link-HoldsIf zero path slave s = tt
  try_claim_link-HoldsIf (suc f) path slave s =
      attempt-HoldsIf slave path s (fs.symlink slave path s) _ refl
        (λ u. try_claim_link-HoldsIf f path slave u)
