-- ===== src/Pty/Create/Leaks.antt =====
-- What descriptors a port's creation leaves open.
use ttyforge.Common.{
  ◌==◌, if◌then◌else◌, ==_iff, Bool-cases, ℕ, ◌≡◌, refl, sym, ap, ◌∙◌, inl, inr, Bool, true, false,
  ◌||◌, Option, none, some,
}
use ttyforge.Common.Text.{Text}
use ttyforge.Run.{Outcome, ok}
use ttyforge.Pty.Create.{Descriptors, Port, close_both, wrap_master, name_slave, opened_pty, create}

-- The table of open descriptors, and how the calls change it.
pub record HasTable (S : Type 0) (k : Descriptors S) : Type 0 where
  pub is_open : S → ℕ → Bool
  pub openpty_fails :
      (s s' : S) → k.openpty s ≡ (s', none) → (fd : ℕ) → is_open s' fd ≡ is_open s fd
  pub openpty_opens :
      (s s' : S) (m v : ℕ)
      → k.openpty s ≡ (s', some (m, v))
      → (is_open s m ≡ false)
        × (is_open s v ≡ false)
        × ((fd : ℕ) → is_open s' fd ≡ (is_open s fd || (fd == m || fd == v)))
  pub nonblocking_keeps : (s : S) (m fd : ℕ) → is_open (k.set_nonblocking m s) fd ≡ is_open s fd
  pub register_keeps : (s : S) (m fd : ℕ) → is_open (k.register m s).0 fd ≡ is_open s fd
  pub close_closes :
      (s : S) (m fd : ℕ) → is_open (k.close m s) fd ≡ (if fd == m then false else is_open s fd)

-- The descriptors that a creation should leave open, from those open before it.
abbrev pub left_open : Outcome Port → (ℕ → Bool) → ℕ → Bool
left_open (ok p) before fd = before fd || (fd == p.master || fd == p.slave_keep)
left_open _ before fd = before fd

or_false : (b : Bool) → (b || (false || false)) ≡ b
or_false true = refl
or_false false = refl

module _ {S : Type 0} (k : Descriptors S) (t : HasTable S k) where
  open t use {
    is_open, openpty_fails, openpty_opens, nonblocking_keeps, register_keeps, close_closes,
  }

  close_both-is_open :
      (before : ℕ → Bool) (s : S) (m v fd : ℕ)
      → before m ≡ false
      → before v ≡ false
      → is_open s fd ≡ (before fd || (fd == m || fd == v))
      → is_open (close_both k m v s) fd ≡ before fd
  unfolding close_both
  close_both-is_open before s m v fd hm hv h =
      rw (close_closes, close_closes, h)
        (elim (Bool-cases (fd == v)) [
          | inl e ↦ rw e (sym hv ∙ ap before (sym ((==_iff fd v).0 e)))
          | inr ne ↦ elim (Bool-cases (fd == m)) [
            | inl e ↦ rw (ne, e) (sym hm ∙ ap before (sym ((==_iff fd m).0 e)))
            | inr nf ↦ rw (ne, nf) (or_false (before fd))
          ]
        ])

  -- The two new descriptors of a port, in a world that has them open.
  record IsFresh (before : ℕ → Bool) (s : S) (m v : ℕ) : Type 0 where
    master_new : before m ≡ false
    slave_new : before v ≡ false
    both_open : (fd : ℕ) → is_open s fd ≡ (before fd || (fd == m || fd == v))

  wrap_master-left_open :
      (before : ℕ → Bool) (s : S) (m v : ℕ) (name : Text) (fd : ℕ)
      → IsFresh before s m v
      → let (s', r) = wrap_master k m v name s in is_open s' fd ≡ left_open r before fd
  unfolding wrap_master
  wrap_master-left_open before s m v name fd h =
      let s' = (k.register m (k.set_nonblocking m s)).0 in
      let same_table : is_open s' fd ≡ (before fd || (fd == m || fd == v)) =
        register_keeps (k.set_nonblocking m s) m fd ∙ nonblocking_keeps s m fd ∙ h.both_open fd in
      elim (Bool-cases (k.register m (k.set_nonblocking m s)).1) [
        | inl done ↦ rw done same_table
        | inr refused ↦
            rw refused (close_both-is_open before s' m v fd h.master_new h.slave_new same_table)
      ]

  name_slave-left_open :
      (before : ℕ → Bool) (s : S) (m v : ℕ) (name : Option Text) (fd : ℕ)
      → IsFresh before s m v
      → let (s', r) = name_slave k m v name s in is_open s' fd ≡ left_open r before fd
  unfolding name_slave
  name_slave-left_open before s m v none fd h =
      close_both-is_open before s m v fd h.master_new h.slave_new (h.both_open fd)
  name_slave-left_open before s m v (some name) fd h = wrap_master-left_open before s m v name fd h

  opened_pty-left_open :
      (s : S) (r : S × Option (ℕ × ℕ)) (fd : ℕ)
      → k.openpty s ≡ r
      → let (s', o) = opened_pty k r in is_open s' fd ≡ left_open o (is_open s) fd
  unfolding opened_pty
  opened_pty-left_open s (s', none) fd e = openpty_fails s s' e fd
  opened_pty-left_open s (s', some (m, v)) fd e =
      let (hm, hv, h) = openpty_opens s s' m v e in
      name_slave-left_open (is_open s) s' m v (k.ptsname_r m s') fd
        record { master_new = hm; slave_new = hv; both_open = h }

  -- A port that cannot be created leaves no descriptor open that was not, and one that is created
  -- leaves its two: every early return closes what it has opened.
  pub create-left_open :
      (s : S) (fd : ℕ) → let (s', r) = create k s in is_open s' fd ≡ left_open r (is_open s) fd
  unfolding create
  create-left_open s fd = opened_pty-left_open s (k.openpty s) fd refl
