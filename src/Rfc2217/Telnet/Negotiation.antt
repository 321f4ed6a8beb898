-- ===== src/Rfc2217/Telnet/Negotiation.antt =====
-- The negotiation rules of src/forge/rfc2217.rs, one request at a time and between two codecs.
use ttyforge.Common.{
  ◌==◌, same, if◌then◌else◌, ℕ, zero, suc, ◌≤◌, ◌≡◌, refl, Bool, true, false, none, some, arith,
}
use ttyforge.Rfc2217.Telnet.{
  dont, do_, wont, will, Telnet, is_known, them_slot, us_slot, is_offer, negotiate,
}

-- The slot that a request moves.
abbrev pub slot : ℕ → ℕ → Telnet → Bool
slot cmd opt t = if is_offer cmd then them_slot opt t else us_slot opt t

-- What a request asks of the slot.
abbrev pub asks : ℕ → Bool
asks cmd = if is_offer cmd then cmd == will else cmd == do_

abbrev pub answer : ℕ → Bool → ℕ
answer cmd agreed =
    if is_offer cmd then (if agreed then do_ else dont) else (if agreed then will else wont)

-- A request for a known option leaves its slot as it asks, and is answered, in kind, exactly when
-- that moved the slot.
pub negotiate-slot :
    (cmd opt : ℕ) (t : Telnet)
    → is_known opt ≡ true
    → let (t', reply) = negotiate cmd opt t in
      (slot cmd opt t' ≡ asks cmd)
      × (reply ≡ (if same (slot cmd opt t) (asks cmd) then none else some (answer cmd (asks cmd))))
unfolding negotiate
negotiate-slot cmd opt t h = ground arith

-- The same request again changes nothing and draws no answer.
pub negotiate_twice :
    (cmd opt : ℕ) (t : Telnet)
    → is_known opt ≡ true
    → let t' = (negotiate cmd opt t).0 in negotiate cmd opt t' ≡ (t', none)
unfolding negotiate
negotiate_twice cmd opt t h = ground arith

-- Two codecs that hand each other's answers on: `cmd` reaches `a` first. Counts the answers given in
-- at most `n` turns.
pub chatter : ℕ → Telnet → Telnet → ℕ → ℕ → ℕ
chatter zero a b cmd opt = 0
chatter (suc n) a b cmd opt = elim (negotiate cmd opt a).1 [
  | none ↦ 0
  | some reply ↦ suc (chatter n b (negotiate cmd opt a).0 reply opt)
]

-- For a known option two codecs fall silent after two answers at most, whatever state they are in.
pub chatter-known :
    (n : ℕ) (a b : Telnet) (cmd opt : ℕ) → is_known opt ≡ true → chatter n a b cmd opt ≤ 2
unfolding chatter negotiate
chatter-known zero a b cmd opt h = omega arith
chatter-known (suc zero) a b cmd opt h = ground arith
chatter-known (suc (suc zero)) a b cmd opt h = ground arith
chatter-known (suc (suc (suc n))) a b cmd opt h = ground arith

-- For an unknown option two codecs, whatever state they are in, never fall silent: every turn
-- draws an answer.
pub chatter_unknown :
    (n : ℕ) (a b : Telnet) (cmd opt : ℕ) → is_known opt ≡ false → chatter n a b cmd opt ≡ n
unfolding chatter negotiate
chatter_unknown zero a b cmd opt h = refl
chatter_unknown (suc n) a b cmd opt h =
    ground (arith, chatter_unknown n b a (if is_offer cmd then dont else wont) opt h)
