-- ===== src/Pty/Link/Calls/Calm.antt =====
-- A claim on a path whose sidecar is not stale: what each of its calls leaves.
use ttyforge.Common.{
  ℕ, ◌≡◌, refl, sym, ap, ◌∙◌, ◌≢◌, ◌⊎◌, inl, inr, Bool, true, false, Option, some,
}
use ttyforge.Common.Text.{Text}
use ttyforge.Pty.Link.{
  Made, made, already_exists, not_made, Files, sidecar, pid_sidecar_is_stale, claimed, busy, failed,
}
use ttyforge.Pty.Link.Retry.{IsStale, is_stale-false}
use ttyforge.Pty.Link.Calls.{
  Phase, linking, found, clearing, half_cleared, seen, ended, linked, call,
}
use mathlib.Core.Path.{fun_ext}

-- What the claim relies on of a file system: a link is made only where nothing is, and is there
-- then; a `symlink` that makes none changes nothing; and making a link touches no sidecar, nor who is
-- alive.
pub record Links {S : Type 0} (fs : Files S) (path : Text) : Type 0 where
  pub is_there : S → Bool
  pub made-free : (t : Text) (s s' : S) → fs.symlink t path s ≡ (s', made) → is_there s ≡ false
  pub made-there : (t : Text) (s s' : S) → fs.symlink t path s ≡ (s', made) → is_there s' ≡ true
  pub made-reads :
      (t : Text) (s s' : S)
      → fs.symlink t path s ≡ (s', made)
      → fs.read_to_string (sidecar path) s' ≡ fs.read_to_string (sidecar path) s
  pub made-alive :
      (t : Text) (s s' : S) (pid : Bool × ℕ)
      → fs.symlink t path s ≡ (s', made)
      → fs.process_alive pid s' ≡ fs.process_alive pid s
  pub unmade : (t : Text) (s s' : S) (m : Made) → fs.symlink t path s ≡ (s', m) → m ≢ made → s' ≡ s

module _ {S : Type 0} (fs : Files S) (path : Text) (links : Links fs path) where
  open links use {is_there, made-free, made-there, made-reads, made-alive, unmade}

  abbrev verdict : Option Text → S → Option Bool
  verdict contents s = pid_sidecar_is_stale contents (λ pid. fs.process_alive pid s)

  -- A claim that has seen no stale sidecar, and whose link is there once it is made.
  abbrev pub Calm : S → Phase → Type 0
  Calm s linking = Unit
  Calm s found = Unit
  Calm s (seen contents) = ¬ (verdict contents s ≡ some true)
  Calm s clearing = ⊥
  Calm s half_cleared = ⊥
  Calm s (ended c) = c ≡ claimed → is_there s ≡ true

  verdict-made :
      (t : Text) (s s' : S) (contents : Option Text)
      → fs.symlink t path s ≡ (s', made)
      → verdict contents s' ≡ verdict contents s
  verdict-made t s s' contents e =
      ap (pid_sidecar_is_stale contents) (fun_ext λ pid. made-alive t s s' pid e)

  Calm-made :
      (t : Text) (s s' : S) (p : Phase) → fs.symlink t path s ≡ (s', made) → Calm s p → Calm s' p
  Calm-made t s s' linking e h = tt
  Calm-made t s s' found e h = tt
  Calm-made t s s' (seen contents) e h = λ d. h (sym (verdict-made t s s' contents e) ∙ d)
  Calm-made t s s' clearing e h = h
  Calm-made t s s' half_cleared e h = h
  Calm-made t s s' (ended c) e h = λ d. made-there t s s' e

  -- What a call of a calm claim leaves: it is calm, the sidecar is not stale, the others are as calm
  -- as they were, and the link is taken only where there was none.
  pub record Moves (s s' : S) (p p' : Phase) : Type 0 where
    pub calm : Calm s' p'
    pub not_stale : ¬ IsStale fs path s'
    pub others : (q : Phase) → Calm s q → Calm s' q
    pub taken : p' ≡ ended claimed → (p ≡ ended claimed) ⊎ (is_there s ≡ false)

  -- A call that leaves the files as they are.
  looks :
      (s s' : S) (p p' : Phase)
      → s' ≡ s
      → ¬ IsStale fs path s
      → Calm s p'
      → (p' ≡ ended claimed → p ≡ ended claimed)
      → Moves s s' p p'
  looks s s' p p' e h c d = record {
    calm = rw e c;
    not_stale = rw e h;
    others = λ q k. rw e k;
    taken = λ x. inl (d x);
  }

  linked-Moves :
      (t : Text) (s s' : S) (m : Made)
      → fs.symlink t path s ≡ (s', m)
      → ¬ IsStale fs path s
      → Moves s s' linking (linked m)
  linked-Moves t s s' made e h = record {
    calm = λ d. made-there t s s' e;
    not_stale = λ d. h (
        ap (λ contents. verdict contents s) (sym (made-reads t s s' e))
        ∙ sym (verdict-made t s s' (fs.read_to_string (sidecar path) s') e)
        ∙ d);
    others = λ q k. Calm-made t s s' q e k;
    taken = λ d. inr (made-free t s s' e);
  }
  linked-Moves t s s' already_exists e h =
      looks s s' linking found (unmade t s s' already_exists e (λ d. cc)) h tt (λ d. cc)
  linked-Moves t s s' not_made e h =
      looks s s' linking (ended failed) (unmade t s s' not_made e (λ d. cc)) h (λ d. cc) (λ d. cc)

  pub call-Moves :
      (t : Text) (p : Phase) (s : S)
      → Calm s p
      → ¬ IsStale fs path s
      → let (p', s') = call fs path t p s in Moves s s' p p'
  unfolding call
  call-Moves t linking s c h = let (s', m) = fs.symlink t path s in linked-Moves t s s' m refl h
  call-Moves t found s c h = looks s s found _ refl h h (λ d. cc)
  call-Moves t (seen contents) s c h =
      rw (is_stale-false fs (verdict contents s) c)
        (looks s s (seen contents) (ended busy) refl h (λ d. cc) (λ d. cc))
  call-Moves t clearing s c h = absurd c
  call-Moves t half_cleared s c h = absurd c
  call-Moves t (ended a) s c h = looks s s (ended a) (ended a) refl h c (λ d. d)
