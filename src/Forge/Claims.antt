-- ===== src/Forge/Claims.antt =====
-- What `Link::claim` and the end of a run do to the directory.
use ttyforge.Common.{
  if◌then◌else◌, ◌>>=◌, ℕ, zero, suc, ◌≡◌, inl, Bool, true, false, Option, none, some,
}
use ttyforge.Common.Text.{Text}
use ttyforge.Common.Decimal.{decimal}
use ttyforge.Pty.Link.{
  Files, sidecar, default_link, Claim, claimed, busy, failed, Claimed, link, link_busy,
  no_free_slot, link_failed, pid_failed, try_claim_link, claim_slots, claim_path, record_pid, claim,
}
use ttyforge.Forge.Tidy.{
  HasDirectory, Nothing, Nothing-any, was, beside, held, unremovable, Adds, Adds-none, Adds-trans,
  remove_held, write_sidecar-Adds,
}
use ttyforge.Forge.Attempts.{HoldsIf, try_claim_link-HoldsIf}

module _ {S : Type 0} (fs : Files S) (d : HasDirectory S fs) where
  -- What `Link::claim` should come to.
  abbrev pub HoldsLink : S → S × Claimed → Type 0
  HoldsLink s (s', link path) = Adds fs d (λ p. p ≡ path) s s'
  HoldsLink s (s', _) = Adds fs d Nothing s s'

  abbrev pub HoldsLinkIf : S → Option (S × Claimed) → Type 0
  HoldsLinkIf s none = Unit {0}
  HoldsLinkIf s (some r) = HoldsLink s r

  none_held : (s s' : S) (c : Claimed) → Adds fs d Nothing s s' → HoldsLink s (s', c)
  none_held s s' (link path) a =
      Adds-trans fs d Nothing (λ p. p ≡ path) s s' s' (Nothing-any (λ p. p ≡ path)) a
        (Adds-none fs d (λ p. p ≡ path) s')
  none_held s s' (link_busy path) a = a
  none_held s s' no_free_slot a = a
  none_held s s' link_failed a = a
  none_held s s' (pid_failed path) a = a

  HoldsLinkIf-trans :
      (s s' : S) (o : Option (S × Claimed))
      → Adds fs d Nothing s s'
      → HoldsLinkIf s' o
      → HoldsLinkIf s o
  HoldsLinkIf-trans s s' none a h = tt
  HoldsLinkIf-trans s s' (some (u, link path)) a h =
      Adds-trans fs d Nothing (λ p. p ≡ path) s s' u (Nothing-any (λ p. p ≡ path)) a h
  HoldsLinkIf-trans s s' (some (u, link_busy path)) a h =
      Adds-trans fs d Nothing Nothing s s' u (Nothing-any Nothing) a h
  HoldsLinkIf-trans s s' (some (u, no_free_slot)) a h =
      Adds-trans fs d Nothing Nothing s s' u (Nothing-any Nothing) a h
  HoldsLinkIf-trans s s' (some (u, link_failed)) a h =
      Adds-trans fs d Nothing Nothing s s' u (Nothing-any Nothing) a h
  HoldsLinkIf-trans s s' (some (u, pid_failed path)) a h =
      Adds-trans fs d Nothing Nothing s s' u (Nothing-any Nothing) a h

  -- One slot, and the rest where it is busy.
  slot-HoldsLinkIf :
      (path : Text) (s : S) (o : Option (S × Claim)) (next : S → Option (S × Claimed))
      → HoldsIf fs d s o path
      → ((u : S) → HoldsLinkIf u (next u))
      → HoldsLinkIf s (
          o >>= λ r. elim r.1 [
            | claimed ↦ some (r.0, link path)
            | busy ↦ next r.0
            | failed ↦ some (r.0, link_failed)
          ])
  slot-HoldsLinkIf path s none next h k = tt
  slot-HoldsLinkIf path s (some (u, claimed)) next h k = h
  slot-HoldsLinkIf path s (some (u, busy)) next h k = HoldsLinkIf-trans s u (next u) h (k u)
  slot-HoldsLinkIf path s (some (u, failed)) next h k = h

  claim_slots-HoldsLinkIf :
      (fuel : ℕ) (tag slave : Text) (n slots : ℕ) (s : S)
      → HoldsLinkIf s (claim_slots fs fuel tag slave n slots s)
  unfolding claim_slots
  claim_slots-HoldsLinkIf fuel tag slave n zero s = Adds-none fs d Nothing s
  claim_slots-HoldsLinkIf fuel tag slave n (suc slots) s =
      slot-HoldsLinkIf (default_link tag n) s (try_claim_link fs fuel (default_link tag n) slave s)
        _ (try_claim_link-HoldsIf fs d fuel (default_link tag n) slave s)
        (λ u. claim_slots-HoldsLinkIf fuel tag slave (suc n) slots u)

  path-HoldsLinkIf :
      (path : Text) (s : S) (o : Option (S × Claim))
      → HoldsIf fs d s o path
      → HoldsLinkIf s (
          o >>= λ r.
          some
            (r.0, elim r.1 [ claimed ↦ link path | busy ↦ link_busy path | failed ↦ link_failed ]))
  path-HoldsLinkIf path s none h = tt
  path-HoldsLinkIf path s (some (u, claimed)) h = h
  path-HoldsLinkIf path s (some (u, busy)) h = h
  path-HoldsLinkIf path s (some (u, failed)) h = h

  claim_path-HoldsLinkIf :
      (fuel : ℕ) (explicit : Option Text) (tag slave : Text) (s : S)
      → HoldsLinkIf s (claim_path fs fuel explicit tag slave s)
  unfolding claim_path
  claim_path-HoldsLinkIf fuel none tag slave s = claim_slots-HoldsLinkIf fuel tag slave 1 9_999 s
  claim_path-HoldsLinkIf fuel (some p) tag slave s =
      path-HoldsLinkIf p s (try_claim_link fs fuel p slave s)
        (try_claim_link-HoldsIf fs d fuel p slave s)

  recorded :
      (path : Text) (s s' u : S) (done : Bool)
      → Adds fs d (λ p. p ≡ path) s s'
      → Adds fs d (λ p. p ≡ path) s u
      → let given_up = (fs.remove_file path u).0 in
        HoldsLink s (if done then (u, link path) else (given_up, pid_failed path))
  recorded path s s' u true h k = k
  recorded path s s' u false h k = remove_held fs d Nothing path s u (λ p e. elim (k p e) [
    | was e' ↦ was e'
    | beside q e' ↦ beside q e'
    | unremovable u ↦ unremovable u
    | held e' ↦ held (inl e')
  ])

  record_pid-HoldsLink :
      (pid : ℕ) (s : S) (r : S × Claimed) → HoldsLink s r → HoldsLink s (record_pid fs pid r)
  unfolding record_pid
  record_pid-HoldsLink pid s (s', link path) h =
      recorded path s s' (fs.write (sidecar path) (decimal pid) s').0 _ h
        (write_sidecar-Adds fs d (λ p. p ≡ path) path (decimal pid) s s' h)
  record_pid-HoldsLink pid s (s', link_busy path) h = h
  record_pid-HoldsLink pid s (s', no_free_slot) h = h
  record_pid-HoldsLink pid s (s', link_failed) h = h
  record_pid-HoldsLink pid s (s', pid_failed path) h = h

  claimed-HoldsLinkIf :
      (pid : ℕ) (s : S) (o : Option (S × Claimed))
      → HoldsLinkIf s o
      → HoldsLinkIf s (o >>= λ r. some (record_pid fs pid r))
  claimed-HoldsLinkIf pid s none h = tt
  claimed-HoldsLinkIf pid s (some r) h = record_pid-HoldsLink pid s r h

  pub claim-HoldsLinkIf :
      (fuel pid : ℕ) (explicit : Option Text) (tag slave : Text) (s : S)
      → HoldsLinkIf s (claim fs fuel pid explicit tag slave s)
  unfolding claim
  claim-HoldsLinkIf fuel pid explicit tag slave s =
      claimed-HoldsLinkIf pid s (claim_path fs fuel explicit tag slave s)
        (claim_path-HoldsLinkIf fuel explicit tag slave s)
