-- ===== src/Common/Interleaving.antt =====
-- Two sequences of whole messages behind one lock: each keeps its order, and they meet anyhow.
use ttyforge.Common.{length, ◌+◌, ◌≡◌, refl, List, [], ◌∷◌, arith}

module _ {ℓ} {A : Type ℓ} where
  pub data Interleaved : List A → List A → List A → Type ℓ where
    done : Interleaved [] [] []
    left : {x : A} {xs ys zs : List A} → Interleaved xs ys zs → Interleaved (x ∷ xs) ys (x ∷ zs)
    right : {y : A} {xs ys zs : List A} → Interleaved xs ys zs → Interleaved xs (y ∷ ys) (y ∷ zs)

  pub length-Interleaved :
      {xs ys zs : List A} → Interleaved xs ys zs → length zs ≡ length xs + length ys
  length-Interleaved done = refl
  length-Interleaved (left i) = omega (arith, length-Interleaved i)
  length-Interleaved (right i) = omega (arith, length-Interleaved i)
