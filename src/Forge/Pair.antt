-- ===== src/Forge/Pair.antt =====
-- `run` of src/forge/pair.rs.
use ttyforge.Common.{◌==◌, codes, length, is_empty, Bool, ◌||◌, Option, none, some, List, [], ◌∷◌}
use ttyforge.Common.Text.{Text}
use ttyforge.Run.{other_error, ok, Step, ◌then_◌, ensure}
use ttyforge.Wire.Float.{Float64}
use ttyforge.Wire.Plan.{WireSpec, build_pair}
use ttyforge.Pty.Create.{Port, create}
use ttyforge.Status.{Json, announce}
use ttyforge.Forge.Host.{Host, claim_link, with_link, install, in_context, or_panic}

abbrev pub first : List Text → Option Text
first [] = none
first (x ∷ xs) = some x

abbrev pub second : List Text → Option Text
second [] = none
second (x ∷ xs) = first xs

module _ (fl : Float64) (js : Json fl.F) {S : Type 0} (h : Host fl.F S) where
  open fl use {F}

  -- Both links claimed: the signals, the announcement, the cables, and the wait for a signal.
  unfoldable pub pair_serve : WireSpec F → Bool → Port → Port → Text → Text → Step S (Unit {0})
  pair_serve wire json a b path_a path_b =
      install h
      then_ (λ _. announce js h.out json h.pid (codes "pair") (path_a ∷ path_b ∷ []) js.null wire)
      then_ (λ _ s. or_panic (build_pair fl (h.now s) wire) s)
      then_ (λ w s. (h.cables w.0 w.1 a b s, ok tt))

  unfoldable pub pair_run : List Text → WireSpec F → Bool → Step S (Unit {0})
  unfolding pair_serve
  pair_run links wire json =
      ensure (is_empty links || length links == 2) (other_error ∷ [])
      then_ (λ _. in_context other_error (create h.ptys))
      then_ (λ a. in_context other_error (create h.ptys) then_ (λ b.
          with_link h (in_context other_error (claim_link h (first links) (codes "a") a.slave_name))
            (λ path_a.
              with_link h
                (in_context other_error (claim_link h (second links) (codes "b") b.slave_name))
                (λ path_b. pair_serve wire json a b path_a path_b))))
