-- ===== src/Wire/Delivery/Clean.antt =====
-- The wires that `build_pair_nth` and `build_pair` of src/forge/wire.rs give.
use ttyforge.Wire.Plan.{WireSpec, Wire, byte_time_of, wire_from, new, build_pair_nth, build_pair}
use ttyforge.Common.{◌>>=◌, >>=-eq-some, ℕ, ◌+◌, ◌*◌, ◌≡◌, refl, ap, none, some}
use ttyforge.Wire.Float.{Float64}
use ttyforge.Wire.Rng.{u64}
use ttyforge.Wire.Plan.Build.{cell_bytes_of-pos}
use ttyforge.Wire.Delivery.Recorded.{IsClean}
use mathlib.Core.Path.{subst}

module _ (fl : Float64) where
  open fl use {F}

  new-IsClean :
      (now : ℕ) (spec : WireSpec F) (direction : ℕ) {w : Wire F}
      → spec.drop ≡ none
      → spec.corrupt ≡ none
      → new fl now spec direction ≡ some w
      → IsClean fl w
  unfolding new wire_from
  new-IsClean now spec direction {w} d c e =
      let (bt, _, e2) =
        >>=-eq-some (byte_time_of fl spec.baud) (λ t. some (wire_from fl now spec direction t)) e in
      let same_wire : wire_from fl now spec direction bt ≡ w = cc in
      rw (← same_wire) record {
        no_drop = rw d refl;
        no_corrupt = rw c refl;
        cells_nonempty = cell_bytes_of-pos spec.baud;
      }

  -- Both wires of a session, where nothing is dropped or corrupted.
  pub build_pair_nth-IsClean :
      (now : ℕ) (spec : WireSpec F) (session : ℕ) {a b : Wire F}
      → spec.drop ≡ none
      → spec.corrupt ≡ none
      → build_pair_nth fl now spec session ≡ some (a, b)
      → IsClean fl a × IsClean fl b
  unfolding build_pair_nth
  build_pair_nth-IsClean now spec session {a} {b} d c e =
      let base = u64 (session * 2) in
      let (x, e1, e2) =
        >>=-eq-some (new fl now spec base)
          (λ x. new fl now spec (u64 (base + 1)) >>= λ y. some (x, y)) e in
      let (y, e3, e4) = >>=-eq-some (new fl now spec (u64 (base + 1))) (λ y. some (x, y)) e2 in
      let pair : Wire F × Wire F = (x, y) in
      let same : pair ≡ (a, b) = cc in
      (
        subst (IsClean fl) (ap (λ p. p.0) same) (new-IsClean now spec base d c e1),
        subst (IsClean fl) (ap (λ p. p.1) same) (new-IsClean now spec (u64 (base + 1)) d c e3),
      )

  pub build_pair-IsClean :
      (now : ℕ) (spec : WireSpec F) {a b : Wire F}
      → spec.drop ≡ none
      → spec.corrupt ≡ none
      → build_pair fl now spec ≡ some (a, b)
      → IsClean fl a × IsClean fl b
  unfolding build_pair
  build_pair-IsClean now spec d c e = build_pair_nth-IsClean now spec 0 d c e
