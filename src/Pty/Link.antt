-- ===== src/Pty/Link.antt =====
-- `Link`, `try_claim_link`, `reclaim_if_stale`, `pid_sidecar_is_stale` and `default_link` of
-- src/forge/pty.rs. A `&mut` world is passed through: the file system is a parameter.
pub mod Retry
pub mod Calls
pub mod Lives
pub mod Pid
pub mod Slots
use ttyforge.Common.{
  leb, ◌==◌, if◌then◌else◌, codes, ◌>>=◌, ℕ, zero, suc, Bool, true, false, not, Option, none, some,
  [], ◌∷◌, ◌++◌,
}
use ttyforge.Common.Text.{Text, trim}
use ttyforge.Common.Decimal.{decimal, digits_value}

-- What `symlink` gives.
pub data Made : Type 0 where
  made : Made
  already_exists : Made
  not_made : Made

-- The calls that the claim makes of the operating system. The Boolean of `remove_file` and `write`
-- says that it succeeded; `process_alive` is the probe with signal 0.
pub record Files (S : Type 0) : Type 0 where
  pub symlink : Text → Text → S → S × Made
  pub remove_file : Text → S → S × Bool
  pub read_to_string : Text → S → Option Text
  pub write : Text → Text → S → S × Bool
  pub process_alive : Bool × ℕ → S → Bool

-- `format!("{path}.pid")`
unfoldable pub sidecar : Text → Text
sidecar path = path ++ codes ".pid"

unfoldable pub default_link : Text → ℕ → Text
default_link tag n =
    if n == 1
    then codes "/tmp/ttyforge-" ++ (tag ++ codes ".pty")
    else codes "/tmp/ttyforge-" ++ (tag ++ (b'-' ∷ (decimal n ++ codes ".pty")))

-- The digits of an `i32` whose magnitude is at most `bound`.
abbrev bounded : Bool → ℕ → Text → Option (Bool × ℕ)
bounded negative bound [] = none
bounded negative bound (c ∷ cs) =
    digits_value 0 (c ∷ cs) >>= λ n. if leb n bound then some (negative, n) else none

-- `str::parse::<i32>`: the sign, true if it is negative, and the magnitude.
unfoldable pub parse_i32 : Text → Option (Bool × ℕ)
parse_i32 [] = none
parse_i32 (c ∷ cs) =
    if c == b'-'
    then bounded true 0x8000_0000 cs
    else if c == b'+'
    then bounded false 0x7fff_ffff cs
    else bounded false 0x7fff_ffff (c ∷ cs)

unfoldable pub pid_sidecar_is_stale : Option Text → (Bool × ℕ → Bool) → Option Bool
unfolding parse_i32
pid_sidecar_is_stale contents probe = do
  text ← contents
  pid ← parse_i32 (trim text)
  some (not (probe pid))

abbrev pub is_stale : Option Bool → Bool
is_stale (some true) = true
is_stale _ = false

-- What `try_claim_link` returns.
pub data Claim : Type 0 where
  claimed : Claim
  busy : Claim
  failed : Claim

-- What `Link::claim` returns.
pub data Claimed : Type 0 where
  link : Text → Claimed
  link_busy : Text → Claimed
  no_free_slot : Claimed
  link_failed : Claimed
  pid_failed : Text → Claimed

module _ {S : Type 0} (fs : Files S) where
  unfoldable pub reclaim_if_stale : Text → S → S × Bool
  unfolding pid_sidecar_is_stale sidecar
  reclaim_if_stale path s =
      let contents = fs.read_to_string (sidecar path) s in
      let cleared = (fs.remove_file (sidecar path) (fs.remove_file path s).0).0 in
      if is_stale (pid_sidecar_is_stale contents (λ pid. fs.process_alive pid s))
      then (cleared, true)
      else (s, false)

  -- The arms of the `match` on `symlink`; `again` is `continue`.
  unfoldable pub retry : S × Bool → (S → Option (S × Claim)) → Option (S × Claim)
  retry (s, true) again = again s
  retry (s, false) again = some (s, busy)

  unfoldable pub attempt : Text → S × Made → (S → Option (S × Claim)) → Option (S × Claim)
  unfolding retry reclaim_if_stale
  attempt path (s, made) again = some (s, claimed)
  attempt path (s, already_exists) again = retry (reclaim_if_stale path s) again
  attempt path (s, not_made) again = some (s, failed)

  -- The loop of `try_claim_link`; the fuel counts its rounds.
  unfoldable pub try_claim_link : ℕ → Text → Text → S → Option (S × Claim)
  unfolding attempt
  try_claim_link zero path slave s = none
  try_claim_link (suc f) path slave s =
      attempt path (fs.symlink slave path s) (λ s'. try_claim_link f path slave s')

  -- `for n in first..=9999` of `Link::claim`, over the slots left to try.
  unfoldable pub claim_slots : ℕ → Text → Text → ℕ → ℕ → S → Option (S × Claimed)
  unfolding try_claim_link default_link
  claim_slots fuel tag slave n zero s = some (s, no_free_slot)
  claim_slots fuel tag slave n (suc slots) s =
      try_claim_link fuel (default_link tag n) slave s >>= λ r.
      let next = claim_slots fuel tag slave (suc n) slots r.0 in
      elim r.1 [
        | claimed ↦ some (r.0, link (default_link tag n))
        | busy ↦ next
        | failed ↦ some (r.0, link_failed)
      ]

  unfoldable pub claim_path : ℕ → Option Text → Text → Text → S → Option (S × Claimed)
  unfolding claim_slots
  claim_path fuel (some p) tag slave s = do
    r ← try_claim_link fuel p slave s
    some (r.0, elim r.1 [ claimed ↦ link p | busy ↦ link_busy p | failed ↦ link_failed ])
  claim_path fuel none tag slave s = claim_slots fuel tag slave 1 9_999 s

  -- The sidecar of a claimed path; without it the link is given up.
  unfoldable pub record_pid : ℕ → S × Claimed → S × Claimed
  unfolding sidecar
  record_pid pid (s, link path) =
      let (s', done) = fs.write (sidecar path) (decimal pid) s in
      let given_up = (fs.remove_file path s').0 in
      if done then (s', link path) else (given_up, pid_failed path)
  record_pid pid (s, other) = (s, other)

  unfoldable pub claim : ℕ → ℕ → Option Text → Text → Text → S → Option (S × Claimed)
  unfolding claim_path record_pid
  claim fuel pid explicit tag slave s = do
    r ← claim_path fuel explicit tag slave s
    some (record_pid pid r)

  -- `impl Drop for Link`
  unfoldable pub drop_link : Text → S → S
  unfolding sidecar
  drop_link path s = (fs.remove_file (sidecar path) (fs.remove_file path s).0).0
