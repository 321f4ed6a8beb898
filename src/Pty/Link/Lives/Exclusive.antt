-- ===== src/Pty/Link/Lives/Exclusive.antt =====
-- Of the processes that share a path while they live, one at most has the link.
use ttyforge.Common.{true-false, ℕ, ◌≤◌, ◌≡◌, sym, ◌∙◌, ◌≢◌, true, false, List, [], ◌∷◌}
use ttyforge.Common.Text.{Text}
use ttyforge.Common.Family.{update_all, update_single}
use ttyforge.Pty.Link.{Files}
use ttyforge.Pty.Link.Retry.{IsStale}
use ttyforge.Pty.Link.Calls.{linking}
use ttyforge.Pty.Link.Lives.{claiming, Lives, live, step, steps}
use ttyforge.Pty.Link.Lives.Lasting.{
  Machine, HasLink, CalmLife, CalmLife-there, CalmLife-kept, live-Lasts,
}

module _ {S : Type 0} (fs : Files S) (path : Text) (machine : Machine fs path) where
  open machine use {links, alive}
  open links use {is_there}

  module _ (slaves : ℕ → Text) (pids : ℕ → ℕ) where
    -- No sidecar is stale, each process is calm, and at most one has the link.
    record IsOwned (c : Lives S) : Type 0 where
      not_stale : ¬ IsStale fs path c.files
      calm : (i : ℕ) → CalmLife fs path machine c.files (c.lives i)
      single : (i j : ℕ) → HasLink (c.lives i) → HasLink (c.lives j) → i ≡ j

    -- The numbers that the processes have: those of processes that live.
    abbrev pub AllAlive : Type 0
    AllAlive = (i : ℕ) → (pids i ≤ 0x7fff_ffff) × (alive (false, pids i) ≡ true)

    step-IsOwned :
        (i : ℕ) (c : Lives S) → AllAlive → IsOwned c → IsOwned (step fs path slaves pids i c)
    unfolding step
    step-IsOwned i c living h =
        let (small, here) = living i in
        let (l', s') = live fs path (slaves i) (pids i) (c.lives i) c.files in
        let m =
          live-Lasts fs path machine (slaves i) (pids i) (c.lives i) c.files small here (h.calm i)
            h.not_stale in
        let there : (j : ℕ) → HasLink (c.lives j) → is_there c.files ≡ true =
          λ j e. CalmLife-there fs path machine c.files (c.lives j) e (h.calm j) in
        record {
          not_stale = m.not_stale;
          calm =
              update_all (λ j l. CalmLife fs path machine s' l) c.lives i l' m.calm
                (λ j ne.
                  CalmLife-kept fs path machine c.files s' (c.lives j)
                    (λ e. m.kept (λ x. ne (h.single i j x e)) (there j e)) (h.calm j));
          single =
              update_single HasLink (is_there c.files ≡ false) c.lives i l' h.single m.taken
                (λ j e free. true-false (sym (there j e) ∙ free));
        }

    steps-IsOwned :
        (order : List ℕ) (c : Lives S)
        → AllAlive
        → IsOwned c
        → IsOwned (steps fs path slaves pids order c)
    unfolding steps
    steps-IsOwned [] c living h = h
    steps-IsOwned (i ∷ order) c living h =
        steps-IsOwned order (step fs path slaves pids i c) living (step-IsOwned i c living h)

    -- Processes that share a path, from their claims to their drops, in whatever turns their calls
    -- come: where at the start the path's sidecar names no process that is gone, and each of them
    -- lives, the link of a process that has it is there, whoever else claims the path or gives it
    -- up, and no other process has it.
    pub lives_exclusive :
        (order : List ℕ) (s : S) (i : ℕ)
        → AllAlive
        → ¬ IsStale fs path s
        → let c =
            steps fs path slaves pids order (record { lives = λ k. claiming linking; files = s }) in
          HasLink (c.lives i)
          → (is_there c.files ≡ true) × ((j : ℕ) → i ≢ j → ¬ HasLink (c.lives j))
    lives_exclusive order s i living h e =
        let c =
          steps fs path slaves pids order (record { lives = λ k. claiming linking; files = s }) in
        let o =
          steps-IsOwned order (record { lives = λ k. claiming linking; files = s }) living
            record { not_stale = h; calm = λ k. tt; single = λ a b x y. cc } in
        (
          CalmLife-there fs path machine c.files (c.lives i) e (o.calm i),
          λ j ne y. ne (o.single i j e y),
        )
