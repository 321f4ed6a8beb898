-- ===== src/Bridge/Backoff.antt =====
-- `backoff` and `Peers::next` of src/forge/bridge.rs. Times are milliseconds.
use ttyforge.Common.{
  if◌then◌else◌, ℕ, zero, suc, ◌+◌, ◌*◌, ◌^◌, ◌≤◌, min, ◌≡◌, refl, sym, ap, ◌∙◌, Bool, true, false,
  List, [], ◌∷◌, arith,
}
use native.Mathlib.Nat.{pow-suc}

-- `min(CAP, 250 << attempt.min(10))`
unfoldable pub backoff : ℕ → ℕ
backoff attempt = min 5_000 (250 * 2 ^ min attempt 10)

-- What the loop of `Peers.next` gives: the attempt that connected and the milliseconds slept, or
-- those slept so far.
pub data Dialling : Type 0 where
  connected : ℕ → ℕ → Dialling
  waiting : ℕ → ℕ → Dialling

-- `for attempt in 0u32.. { match connect { … } }` over the results of `TcpStream::connect`.
unfoldable pub dial_from : ℕ → ℕ → List Bool → Dialling
unfolding backoff
dial_from attempt slept [] = waiting attempt slept
dial_from attempt slept (up ∷ ups) =
    let rest = dial_from (suc attempt) (slept + backoff attempt) ups in
    if up then connected attempt slept else rest

-- `loop { match accept { … } }` over the results of `TcpListener::accept`.
unfoldable pub accept_from : ℕ → ℕ → List Bool → Dialling
accept_from attempt slept [] = waiting attempt slept
accept_from attempt slept (up ∷ ups) =
    let rest = accept_from (suc attempt) (slept + 100) ups in
    if up then connected attempt slept else rest

-- `Peers::next` of a listener, or of a dialler.
unfoldable pub next_peer : Bool → List Bool → Dialling
unfolding dial_from accept_from
next_peer false ups = dial_from 0 0 ups
next_peer true ups = accept_from 0 0 ups

one_le-pow : (k : ℕ) → 1 ≤ 2 ^ k
one_le-pow zero = omega arith
one_le-pow (suc k) = omega (arith, one_le-pow k, pow-suc 2 k)

-- From the fifth attempt on, the doubling is above the ceiling.
saturated : (k : ℕ) → min 5_000 (250 * 2 ^ suc (suc (suc (suc (suc k))))) ≡ 5_000
saturated k = omega (
  arith,
  one_le-pow k,
  pow-suc 2 k,
  pow-suc 2 (suc k),
  pow-suc 2 (suc (suc k)),
  pow-suc 2 (suc (suc (suc k))),
  pow-suc 2 (suc (suc (suc (suc k)))),
)

capped : (k : ℕ) → min (suc (suc (suc (suc (suc k))))) 10 ≡ suc (suc (suc (suc (suc (min k 5)))))
capped k = omega arith

-- The bound on the shift does not show: the wait is 250 ms doubled at each attempt, up to 5 s.
pub backoff_lem : (attempt : ℕ) → backoff attempt ≡ min 5_000 (250 * 2 ^ attempt)
unfolding backoff
backoff_lem zero = refl
backoff_lem (suc zero) = refl
backoff_lem (suc (suc zero)) = refl
backoff_lem (suc (suc (suc zero))) = refl
backoff_lem (suc (suc (suc (suc zero)))) = refl
backoff_lem (suc (suc (suc (suc (suc k))))) =
    ap (λ m. min 5_000 (250 * 2 ^ m)) (capped k) ∙ saturated (min k 5) ∙ sym (saturated k)

backoff_range : (attempt : ℕ) → (250 ≤ backoff attempt) × (backoff attempt ≤ 5_000)
backoff_range attempt = omega (arith, backoff_lem attempt, one_le-pow attempt)

backoff_mono : (attempt : ℕ) → backoff attempt ≤ backoff (suc attempt)
backoff_mono attempt =
    omega (arith, backoff_lem attempt, backoff_lem (suc attempt), pow-suc 2 attempt)

-- The redial schedule: no wait is shorter than the one before it or than 250 ms, none is longer
-- than 5 s.
pub backoff_bounds :
    (attempt : ℕ)
    → (250 ≤ backoff attempt)
      × (backoff attempt ≤ backoff (suc attempt))
      × (backoff (suc attempt) ≤ 5_000)
backoff_bounds attempt =
    ((backoff_range attempt).0, backoff_mono attempt, (backoff_range (suc attempt)).1)

-- The waits of `n` attempts from one on.
abbrev pub total_wait : ℕ → ℕ → ℕ
total_wait attempt zero = 0
total_wait attempt (suc n) = backoff attempt + total_wait (suc attempt) n

abbrev pub refused : ℕ → List Bool → List Bool
refused zero ups = ups
refused (suc n) ups = false ∷ refused n ups

connected_eq : {a b s t : ℕ} → a ≡ b → s ≡ t → connected a s ≡ connected b t
connected_eq p q = λ i. connected (p i) (q i)

dial_from-refused :
    (n attempt slept : ℕ) (ups : List Bool)
    → dial_from attempt slept (refused n (true ∷ ups))
      ≡ connected (attempt + n) (slept + total_wait attempt n)
unfolding dial_from
dial_from-refused zero attempt slept ups = connected_eq (omega arith) (omega arith)
dial_from-refused (suc n) attempt slept ups =
    dial_from-refused n (suc attempt) (slept + backoff attempt) ups
    ∙ connected_eq (omega arith) (omega arith)

total_wait-range :
    (n attempt : ℕ) → (250 * n ≤ total_wait attempt n) × (total_wait attempt n ≤ 5_000 * n)
total_wait-range zero attempt = omega arith
total_wait-range (suc n) attempt =
    omega (arith, backoff_range attempt, total_wait-range n (suc attempt))

accept_from-refused :
    (n attempt slept : ℕ) (ups : List Bool)
    → accept_from attempt slept (refused n (true ∷ ups)) ≡ connected (attempt + n) (slept + 100 * n)
unfolding accept_from
accept_from-refused zero attempt slept ups = connected_eq (omega arith) (omega arith)
accept_from-refused (suc n) attempt slept ups =
    accept_from-refused n (suc attempt) (slept + 100) ups ∙ connected_eq (omega arith) (omega arith)

-- A dial that is refused `n` times and then answered connects at that attempt, after waiting
-- between 250 ms and 5 s for each refusal, and a listener that fails `n` times and then accepts a
-- peer has it at that attempt, after 100 ms for each failure.
pub next_peer-connected :
    (n : ℕ) (ups : List Bool)
    → ((slept : ℕ) × (next_peer false (refused n (true ∷ ups)) ≡ connected n slept)
        × (250 * n ≤ slept)
        × (slept ≤ 5_000 * n))
      × (next_peer true (refused n (true ∷ ups)) ≡ connected n (100 * n))
unfolding next_peer
next_peer-connected n ups = (
  (
    total_wait 0 n,
    dial_from-refused n 0 0 ups ∙ connected_eq (omega arith) (omega arith),
    (total_wait-range n 0).0,
    (total_wait-range n 0).1,
  ),
  accept_from-refused n 0 0 ups ∙ connected_eq (omega arith) (omega arith),
)
