-- ===== src/Forge/Holding.antt =====
-- A claim in a run: the link it holds goes when its part of the run ends.
use ttyforge.Common.{◌≡◌, ◌⊎◌, inl, Option, none, some}
use ttyforge.Common.Text.{Text}
use ttyforge.Run.{Frame, Outcome, ok, err, panicked, stuck, context, Step}
use ttyforge.Pty.Link.{Claimed, link, link_busy, no_free_slot, link_failed, pid_failed, claim}
use ttyforge.Forge.Host.{Host, claim_result, claim_link, release, hold, with_link, in_context}
use ttyforge.Forge.Tidy.{
  HasDirectory, Nothing, was, beside, held, unremovable, Adds, drop_link-Adds,
}
use ttyforge.Forge.Claims.{HoldsLinkIf, claim-HoldsLinkIf}
use ttyforge.Forge.Steps.{Leaves, Tidy, Leaves-trans}

module _ {F S : Type 0} (h : Host F S) (d : HasDirectory S h.files) where
  abbrev pub LeavesLink : S → S × Outcome Text → Type 0
  LeavesLink s (s', stuck) = Unit {0}
  LeavesLink s (s', ok path) = Adds h.files d (λ p. p ≡ path) s s'
  LeavesLink s (s', err e) = Adds h.files d Nothing s s'
  LeavesLink s (s', panicked) = Adds h.files d Nothing s s'

  -- A claim holds its link, which goes with the end of what follows.
  abbrev pub TidyClaim : Step S Text → Type 0
  TidyClaim step = (s : S) → LeavesLink s (step s)

  claim_result-LeavesLink :
      (s : S) (o : Option (S × Claimed))
      → HoldsLinkIf h.files d s o
      → LeavesLink s (claim_result h s o)
  unfolding claim_result
  claim_result-LeavesLink s none l = tt
  claim_result-LeavesLink s (some (s', link path)) l = l
  claim_result-LeavesLink s (some (s', link_busy path)) l = l
  claim_result-LeavesLink s (some (s', no_free_slot)) l = l
  claim_result-LeavesLink s (some (s', link_failed)) l = l
  claim_result-LeavesLink s (some (s', pid_failed path)) l = l

  pub claim_link-TidyClaim :
      (explicit : Option Text) (tag slave : Text) → TidyClaim (claim_link h explicit tag slave)
  unfolding claim_link
  claim_link-TidyClaim explicit tag slave s =
      claim_result-LeavesLink s (claim h.files h.rounds h.pid explicit tag slave s)
        (claim-HoldsLinkIf h.files d h.rounds h.pid explicit tag slave s)

  context-LeavesLink :
      (s : S) (frame : Frame) (r : S × Outcome Text)
      → LeavesLink s r
      → LeavesLink s (r.0, context frame r.1)
  unfolding context
  context-LeavesLink s frame (s', stuck) l = tt
  context-LeavesLink s frame (s', ok a) l = l
  context-LeavesLink s frame (s', err e) l = l
  context-LeavesLink s frame (s', panicked) l = l

  pub in_context-TidyClaim :
      (f : Frame) (step : Step S Text) → TidyClaim step → TidyClaim (in_context f step)
  unfolding in_context
  in_context-TidyClaim f step t s = context-LeavesLink s f (step s) (t s)

  -- The link of a claim, and perhaps others, are held when its part of the run ends.
  pub release-Leaves :
      {A : Type 0} (Held : Text → Type 0) (path : Text) (s : S) (r : S × Outcome A)
      → Leaves h d (λ p. (p ≡ path) ⊎ Held p) s r
      → Leaves h d Held s (release h path r)
  unfolding release
  release-Leaves Held path s (s', stuck) l = tt
  release-Leaves Held path s (s', ok a) l = drop_link-Adds h.files d Held path s s' l
  release-Leaves Held path s (s', err e) l = drop_link-Adds h.files d Held path s s' l
  release-Leaves Held path s (s', panicked) l = drop_link-Adds h.files d Held path s s' l

  one_held :
      (path : Text) (s s' : S)
      → Adds h.files d (λ p. p ≡ path) s s'
      → Adds h.files d (λ p. (p ≡ path) ⊎ Nothing p) s s'
  one_held path s s' a p e = elim (a p e) [
    | was e' ↦ was e'
    | beside q e' ↦ beside q e'
    | unremovable u ↦ unremovable u
    | held x ↦ held (inl x)
  ]

  hold-Leaves :
      {A : Type 0} (s : S) (r : S × Outcome Text) (body : Text → Step S A)
      → LeavesLink s r
      → ((path : Text) → Tidy h d (body path))
      → Leaves h d Nothing s (hold h body r)
  unfolding hold
  hold-Leaves s (s', ok path) body l k = release-Leaves Nothing path s (body path s') (
      Leaves-trans h d (λ p. (p ≡ path) ⊎ Nothing p) s s' (body path s') (one_held path s s' l)
        (k path s'))
  hold-Leaves s (s', err e) body l k = l
  hold-Leaves s (s', panicked) body l k = l
  hold-Leaves s (s', stuck) body l k = tt

  pub with_link-Tidy :
      {A : Type 0} (claiming : Step S Text) (body : Text → Step S A)
      → TidyClaim claiming
      → ((path : Text) → Tidy h d (body path))
      → Tidy h d (with_link h claiming body)
  unfolding with_link
  with_link-Tidy claiming body t k s = hold-Leaves s (claiming s) body (t s) k
