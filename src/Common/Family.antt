-- ===== src/Common/Family.antt =====
-- A state for each of several tasks: a function from their numbers, changed at one of them.
use ttyforge.Common.Tests.{if◌then◌else◌, ◌==◌, ==_iff, true-false, Bool-cases}
use Prim.Native.Nat.{ℕ}
use mathlib.Core.Path.{◌≡◌, refl, sym, ◌∙◌, subst}
use native.Mathlib.Omega.{arith}
use mathlib.Core.Logic.{◌≢◌, ◌⊎◌, inl, inr}

module _ {ℓ} {A : Type ℓ} where
  abbrev pub update : (ℕ → A) → ℕ → A → ℕ → A
  update f i a j = if i == j then a else f j

  pub update_self : (f : ℕ → A) (i : ℕ) (a : A) → update f i a i ≡ a
  update_self f i a = ground arith

  pub update_other : (f : ℕ → A) (i j : ℕ) (a : A) → i ≢ j → update f i a j ≡ f j
  update_other f i j a ne = ground arith

  -- What holds at the one that is changed, and at the others as they were, holds at all.
  pub update_all {κ} :
      (P : ℕ → A → Type κ) (f : ℕ → A) (i : ℕ) (a : A)
      → P i a
      → ((j : ℕ) → i ≢ j → P j (f j))
      → (j : ℕ) → P j (update f i a j)
  update_all P f i a here there j = elim (Bool-cases (i == j)) [
    | inl e ↦ rw e (subst (λ k. P k a) ((==_iff i j).0 e) here)
    | inr ne ↦ rw ne (there j (λ e. true-false (sym ((==_iff i j).1 e) ∙ ne)))
  ]

  -- What one at most has, one at most has after a change at `i` that takes it only where it is free.
  pub update_single {κ μ} :
      (Has : A → Type κ) (Free : Type μ) (f : ℕ → A) (i : ℕ) (a : A)
      → ((j k : ℕ) → Has (f j) → Has (f k) → j ≡ k)
      → (Has a → Has (f i) ⊎ Free)
      → ((j : ℕ) → Has (f j) → ¬ Free)
      → (j k : ℕ) → Has (update f i a j)
      → Has (update f i a k)
      → j ≡ k
  update_single Has Free f i a single taken blocked j k x y =
      let seats =
        update_all (λ m b. Has b → Has (f m) ⊎ ((i ≡ m) × Free)) f i a
          (λ h. elim (taken h) [ inl p ↦ inl p | inr free ↦ inr (refl, free) ]) (λ m ne h. inl h) in
      elim (seats j x) [
        | inl p ↦ elim (seats k y) [
          | inl q ↦ single j k p q
          | inr (_, free) ↦ absurd (blocked j p free)
        ]
        | inr (e, free) ↦ elim (seats k y) [
          | inl q ↦ absurd (blocked k q free)
          | inr (e', _) ↦ sym e ∙ e'
        ]
      ]
