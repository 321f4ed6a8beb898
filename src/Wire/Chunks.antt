-- ===== src/Wire/Chunks.antt =====
-- `slice::chunks`, which cuts the data into delivery cells.
use ttyforge.Common.{
  length, take, drop, take-append-drop, length-take, length-drop, All, ℕ, zero, suc, ◌≤◌, ◌≡◌, refl,
  ap, ◌≢◌, List, [], ◌∷◌, arith,
}
use mathlib.Core.List.{flatten}

module _ {ℓ} {A : Type ℓ} where
  chunks_fuel : ℕ → ℕ → List A → List (List A)
  chunks_fuel zero n xs = []
  chunks_fuel (suc f) n [] = []
  chunks_fuel (suc f) n (x ∷ xs) = take n (x ∷ xs) ∷ chunks_fuel f n (drop n (x ∷ xs))

  -- Each round takes an element at least, so the length is fuel enough.
  unfoldable pub chunks : ℕ → List A → List (List A)
  unfolding chunks_fuel
  chunks n xs = chunks_fuel (length xs) n xs

  flatten-chunks_fuel :
      (f n : ℕ) (xs : List A) → 1 ≤ n → length xs ≤ f → flatten (chunks_fuel f n xs) ≡ xs
  unfolding chunks_fuel flatten
  flatten-chunks_fuel zero n [] p q = refl
  flatten-chunks_fuel zero n (x ∷ xs) p q = absurd (omega arith)
  flatten-chunks_fuel (suc f) n [] p q = refl
  flatten-chunks_fuel (suc f) n (x ∷ xs) p q =
      rw (flatten-chunks_fuel f n (drop n (x ∷ xs)) p (omega (arith, length-drop n (x ∷ xs))))
        (take-append-drop n (x ∷ xs))

  -- The chunks put together are the data: the fuel was enough, and nothing is lost or moved.
  pub flatten-chunks : (n : ℕ) (xs : List A) → 1 ≤ n → flatten (chunks n xs) ≡ xs
  unfolding chunks
  flatten-chunks n xs p = flatten-chunks_fuel (length xs) n xs p (omega arith)

  chunks_fuel-small : (f n : ℕ) (xs : List A) → All (λ c. length c ≤ n) (chunks_fuel f n xs)
  unfolding chunks_fuel
  chunks_fuel-small zero n xs = tt
  chunks_fuel-small (suc f) n [] = tt
  chunks_fuel-small (suc f) n (x ∷ xs) =
      (omega (arith, length-take n (x ∷ xs)), chunks_fuel-small f n (drop n (x ∷ xs)))

  pub chunks-small : (n : ℕ) (xs : List A) → All (λ c. length c ≤ n) (chunks n xs)
  unfolding chunks
  chunks-small n xs = chunks_fuel-small (length xs) n xs

  take_all : (n : ℕ) (xs : List A) → length xs ≤ n → take n xs ≡ xs
  take_all zero [] h = refl
  take_all zero (x ∷ xs) h = absurd (omega arith)
  take_all (suc n) [] h = refl
  take_all (suc n) (x ∷ xs) h = ap (◌∷◌ x) (take_all n xs (omega arith))

  drop_all : (n : ℕ) (xs : List A) → length xs ≤ n → drop n xs ≡ []
  drop_all zero [] h = refl
  drop_all zero (x ∷ xs) h = absurd (omega arith)
  drop_all (suc n) [] h = refl
  drop_all (suc n) (x ∷ xs) h = drop_all n xs (omega arith)

  chunks_fuel-nil : (f n : ℕ) → chunks_fuel f n [] ≡ []
  unfolding chunks_fuel
  chunks_fuel-nil zero n = refl
  chunks_fuel-nil (suc f) n = refl

  pub chunks_whole : (n : ℕ) (xs : List A) → xs ≢ [] → length xs ≤ n → chunks n xs ≡ xs ∷ []
  unfolding chunks chunks_fuel
  chunks_whole n [] ne h = absurd (ne refl)
  chunks_whole n (x ∷ xs) ne h = rw (take_all n (x ∷ xs) h, drop_all n (x ∷ xs) h, chunks_fuel-nil)
