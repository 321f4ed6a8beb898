-- ===== src/Forge/Tidy.antt =====
-- What a claim does to the directory: it adds the link it has claimed, and no other.
use ttyforge.Common.{true-false, Bool-cases, ◌≡◌, sym, ap, ◌∙◌, ◌⊎◌, inl, inr, Bool, true, false}
use ttyforge.Common.Text.{Text}
use ttyforge.Pty.Link.{Made, made, Files, sidecar, drop_link}

-- What this process has in the directory, and how the calls on it change that. Creating a path and
-- writing a file may add the path and no other; removing takes a path away, unless it is one that
-- this process cannot remove.
pub record HasDirectory (S : Type 0) (fs : Files S) : Type 1 where
  pub exists : S → Text → Bool
  pub symlink_adds :
      (target path : Text) (s s' : S) (m : Made) (p : Text)
      → fs.symlink target path s ≡ (s', m)
      → exists s' p ≡ true
      → (exists s p ≡ true) ⊎ ((m ≡ made) × (p ≡ path))
  pub write_adds :
      (path text : Text) (s : S) (p : Text)
      → exists (fs.write path text s).0 p ≡ true
      → (exists s p ≡ true) ⊎ (p ≡ path)
  pub removable : Text → Bool
  pub remove_takes :
      (path : Text) (s : S) → removable path ≡ true → exists (fs.remove_file path s).0 path ≡ false
  pub remove_adds :
      (path : Text) (s : S) (p : Text)
      → exists (fs.remove_file path s).0 p ≡ true
      → exists s p ≡ true

-- Nothing is held.
abbrev pub Nothing : Text → Type 0
Nothing p = ⊥

pub Nothing-any : (Held : Text → Type 0) (q : Text) → Nothing q → Held q
Nothing-any Held q e = absurd e

module _ {S : Type 0} (fs : Files S) (d : HasDirectory S fs) where
  open d use {exists, removable, symlink_adds, write_adds, remove_takes, remove_adds}

  -- Where a path that is there afterwards comes from: it was there, it is a sidecar, it is held, or it cannot be removed.
  pub data Source (Held : Text → Type 0) (s : S) (p : Text) : Type 0 where
    was : exists s p ≡ true → Source Held s p
    beside : (q : Text) → p ≡ sidecar q → Source Held s p
    held : Held p → Source Held s p
    unremovable : removable p ≡ false → Source Held s p

  abbrev pub Adds : (Text → Type 0) → S → S → Type 0
  Adds Held s s' = (p : Text) → exists s' p ≡ true → Source Held s p

  pub Adds-none : (Held : Text → Type 0) (s : S) → Adds Held s s
  Adds-none Held s p e = was e

  behind :
      (Held More : Text → Type 0) (s s' : S) (p : Text)
      → ((q : Text) → Held q → More q)
      → Adds Held s s'
      → Source More s' p
      → Source More s p
  behind Held More s s' p up a (beside q e) = beside q e
  behind Held More s s' p up a (held x) = held x
  behind Held More s s' p up a (unremovable u) = unremovable u
  behind Held More s s' p up a (was e) = elim (a p e) [
    | was e' ↦ was e'
    | beside q e' ↦ beside q e'
    | held x ↦ held (up p x)
    | unremovable u ↦ unremovable u
  ]

  pub Adds-trans :
      (Held More : Text → Type 0) (s s' s'' : S)
      → ((q : Text) → Held q → More q)
      → Adds Held s s'
      → Adds More s' s''
      → Adds More s s''
  Adds-trans Held More s s' s'' up a b p e = behind Held More s s' p up a (b p e)

  -- What is held stays so where nothing is added.
  pub Adds-then :
      (Held : Text → Type 0) (s s' s'' : S) → Adds Held s s' → Adds Nothing s' s'' → Adds Held s s''
  Adds-then Held s s' s'' a b p e = elim (b p e) [
    | was e' ↦ a p e'
    | beside q e' ↦ beside q e'
    | held x ↦ absurd x
    | unremovable u ↦ unremovable u
  ]

  -- Held at two steps.
  pub Adds-both :
      (Held More : Text → Type 0) (s s' s'' : S)
      → Adds Held s s'
      → Adds More s' s''
      → Adds (λ p. Held p ⊎ More p) s s''
  Adds-both Held More s s' s'' a b =
      Adds-trans Held (λ p. Held p ⊎ More p) s s' s'' (λ p x. inl x) a
        (λ p e. elim (b p e) [
          | was e' ↦ was e'
          | beside q e' ↦ beside q e'
          | held x ↦ held (inr x)
          | unremovable u ↦ unremovable u
        ])

  -- A held path that is removed is held no more.
  pub remove_held :
      (Held : Text → Type 0) (path : Text) (s s' : S)
      → Adds (λ p. (p ≡ path) ⊎ Held p) s s'
      → Adds Held s (fs.remove_file path s').0
  remove_held Held path s s' a p e = elim (a p (remove_adds path s' p e)) [
    | was e' ↦ was e'
    | beside q e' ↦ beside q e'
    | held (inr x) ↦ held x
    | unremovable u ↦ unremovable u
    | held (inl e') ↦ elim (Bool-cases (removable path)) [
      | inr kept ↦ unremovable (ap removable e' ∙ kept)
      | inl gone ↦ absurd (
          true-false
            (sym e ∙ ap (exists (fs.remove_file path s').0) e' ∙ remove_takes path s' gone))
    ]
  ]

  pub remove_file-Adds :
      (Held : Text → Type 0) (path : Text) (s s' : S)
      → Adds Held s s'
      → Adds Held s (fs.remove_file path s').0
  remove_file-Adds Held path s s' a p h = a p (remove_adds path s' p h)

  pub drop_link-Adds :
      (Held : Text → Type 0) (path : Text) (s s' : S)
      → Adds (λ p. (p ≡ path) ⊎ Held p) s s'
      → Adds Held s (drop_link fs path s')
  unfolding drop_link
  drop_link-Adds Held path s s' a =
      remove_file-Adds Held (sidecar path) s _ (remove_held Held path s s' a)

  pub write_sidecar-Adds :
      (Held : Text → Type 0) (path text : Text) (s s' : S)
      → Adds Held s s'
      → Adds Held s (fs.write (sidecar path) text s').0
  write_sidecar-Adds Held path text s s' a p e = elim (write_adds (sidecar path) text s' p e) [
    | inl was_there ↦ a p was_there
    | inr here ↦ beside path here
  ]
