-- ===== src/Bridge/Session/Carries.antt =====
-- Telnet streams by what a decoder reads from them: the messages of an RFC2217 session that carry
-- data, and those that carry none.
use ttyforge.Common.{
  ◌==◌, Bool-cases, Option-cases, Bytes, All, ℕ, ◌≡◌, refl, sym, inl, inr, true, false, ◌||◌, some,
  List, [], ◌∷◌, ◌++◌, append-nil, append_assoc, arith,
}
use ttyforge.Rfc2217.Telnet.{
  iac, dont, do_, wont, will, Decoded, State, in_data, in_iac, in_sub, in_sub_iac, in_negotiate,
  Telnet, nothing, new, start, negotiate, reply_bytes, step_in, decode_onto, decode, escape, subneg,
}
use ttyforge.Rfc2217.Telnet.Stream.{decode-append}
use ttyforge.Rfc2217.Telnet.Framing.{decode-escape, decode-subneg}
use ttyforge.Rfc2217.Settings.{PortSettings, changed, commands_to}
use mathlib.Core.Path.{subst}
use ttyforge.Common.Interleaving.{Interleaved, done, left, right}
use mathlib.Core.List.{flatten}

-- Any decoder between commands reads the payload from the stream, and is between commands after it.
abbrev pub Carries : Bytes → Bytes → Type 0
Carries stream bytes =
    (t : Telnet)
    → t.state ≡ in_data
    → ((decode t stream).0.state ≡ in_data) × ((decode t stream).1.payload ≡ bytes)

pub Carries-nil : Carries [] []
unfolding decode decode_onto
Carries-nil t h = (h, refl)

pub Carries-append : (s u a b : Bytes) → Carries s a → Carries u b → Carries (s ++ u) (a ++ b)
Carries-append s u a b p q t h =
    let (h', e) = p t h in
    let (h'', e') = q (decode t s).0 h' in rw (decode-append t s u) (h'', λ i. e i ++ e' i)

pub Carries-escape : (bytes : Bytes) → Carries (escape bytes) bytes
Carries-escape bytes t h = rw (decode-escape t bytes h) (h, refl)

pub Carries-subneg :
    (cmd : ℕ) (params : Bytes) → (cmd == iac) ≡ false → Carries (subneg cmd params) []
Carries-subneg cmd params c t h = rw (decode-subneg t cmd params h c) (h, refl)

-- The four commands that name an option.
abbrev IsRequest : ℕ → Type 0
IsRequest cmd = (cmd == will || cmd == wont || cmd == do_ || cmd == dont) ≡ true

Carries-request : (cmd opt : ℕ) → IsRequest cmd → Carries (iac ∷ cmd ∷ opt ∷ []) []
unfolding decode decode_onto step_in
Carries-request cmd opt r t h = ground arith

negotiate-IsRequest :
    (cmd opt : ℕ) (t : Telnet) (c : ℕ) → (negotiate cmd opt t).1 ≡ some c → IsRequest c
unfolding negotiate
negotiate-IsRequest cmd opt t c h = ground arith

-- One request in front of a stream.
Carries-requested :
    (cmd opt : ℕ) (s : Bytes) → IsRequest cmd → Carries s [] → Carries (iac ∷ cmd ∷ opt ∷ s) []
Carries-requested cmd opt s r c =
    Carries-append (iac ∷ cmd ∷ opt ∷ []) s [] [] (Carries-request cmd opt r) c

pub Carries-start : (t : Telnet) → Carries (start t) []
unfolding start
Carries-start t = Carries-requested _ _ _ refl (
    Carries-requested _ _ _ refl
      (Carries-requested _ _ _ refl (Carries-requested _ _ _ refl (Carries-request _ _ refl))))

-- What `decode` answers carries nothing.
Carries-reply_bytes :
    (opt cmd : ℕ) (t : Telnet) → Carries (reply_bytes opt (negotiate cmd opt t).1) []
Carries-reply_bytes opt cmd t = elim (Option-cases (negotiate cmd opt t).1) [
  | inl quiet ↦ rw quiet Carries-nil
  | inr (c, e) ↦ rw e (Carries-request c opt (negotiate-IsRequest cmd opt t c e))
]

-- A reply that a step keeps.
kept : {new old : Bytes} → Carries old [] → new ≡ old → Carries new []
kept h e = subst (λ v. Carries v []) (sym e) h

step_in-reply :
    (s : State) (t : Telnet) (out : Decoded) (b : ℕ)
    → Carries out.reply []
    → Carries (step_in s t out b).1.reply []
unfolding step_in
step_in-reply (in_negotiate cmd) t out b h =
    Carries-append out.reply _ [] [] h (Carries-reply_bytes b cmd t)
step_in-reply in_data t out b h =
    let e : (step_in in_data t out b).1.reply ≡ out.reply = ground arith in kept h e
step_in-reply in_iac t out b h =
    let e : (step_in in_iac t out b).1.reply ≡ out.reply = ground arith in kept h e
step_in-reply in_sub t out b h =
    let e : (step_in in_sub t out b).1.reply ≡ out.reply = ground arith in kept h e
step_in-reply in_sub_iac t out b h =
    let e : (step_in in_sub_iac t out b).1.reply ≡ out.reply = ground arith in kept h e

decode_onto-reply :
    (t : Telnet) (out : Decoded) (bs : Bytes)
    → Carries out.reply []
    → Carries (decode_onto t out bs).1.reply []
unfolding decode_onto
decode_onto-reply t out [] h = h
decode_onto-reply t out (b ∷ bs) h =
    let (t', out') = step_in t.state t out b in
    decode_onto-reply t' out' bs (step_in-reply t.state t out b h)

pub decode-reply : (t : Telnet) (bs : Bytes) → Carries (decode t bs).1.reply []
unfolding decode
decode-reply t bs = decode_onto-reply t nothing bs Carries-nil

-- Messages that carry nothing.
abbrev pub Silent : List Bytes → Type 0
Silent ms = All (λ m. Carries m []) ms

pub Silent-append : (ms ns : List Bytes) → Silent ms → Silent ns → Silent (ms ++ ns)
Silent-append [] ns p q = q
Silent-append (m ∷ ms) ns p q = (p.0, Silent-append ms ns p.1 q)

Silent-changed :
    (old new cmd : ℕ) (params : Bytes) → (cmd == iac) ≡ false → Silent (changed old new cmd params)
unfolding changed
Silent-changed old new cmd params c = elim (Bool-cases (new == old)) [
  | inl e ↦ rw e tt
  | inr n ↦ rw n (Carries-subneg cmd params c, tt)
]

pub Silent-commands_to : (s new : PortSettings) → Silent (commands_to s new)
unfolding commands_to
Silent-commands_to s new = Silent-append _ _ (Silent-changed s.baud new.baud _ _ refl) (
    Silent-append _ _ (Silent-changed s.data_bits new.data_bits _ _ refl) (
      Silent-append _ _ (Silent-changed s.parity new.parity _ _ refl) (
        Silent-append _ _ (Silent-changed s.stop_bits new.stop_bits _ _ refl)
          (Silent-changed s.flow new.flow _ _ refl))))

-- Messages, each with the data that it carries.
pub data Spoken : List Bytes → Bytes → Type 0 where
  quiet : Spoken [] []
  said : {m a b : Bytes} {ms : List Bytes} → Carries m a → Spoken ms b → Spoken (m ∷ ms) (a ++ b)

pub Spoken-append :
    {ms ns : List Bytes} {a b : Bytes} → Spoken ms a → Spoken ns b → Spoken (ms ++ ns) (a ++ b)
Spoken-append quiet s = s
Spoken-append (said {m} {a} {b} {ms} c r) s = rw (append_assoc) (said c (Spoken-append r s))

pub Spoken-said : (m a : Bytes) → Carries m a → Spoken (m ∷ []) a
Spoken-said m a c = subst (λ v. Spoken (m ∷ []) v) (append-nil a) (said c quiet)

-- Whole messages of the two sides of a session, in any order that keeps each side's: what carries
-- data is read as if the other side had said nothing.
pub Interleaved-Carries :
    {ms ns rs : List Bytes} {b : Bytes}
    → Interleaved ms ns rs
    → Spoken ms b
    → Silent ns
    → Carries (flatten rs) b
unfolding flatten
Interleaved-Carries done quiet q = Carries-nil
Interleaved-Carries (left i) (said {m} {a} {b} c s) q =
    Carries-append m _ a b c (Interleaved-Carries i s q)
Interleaved-Carries (right {y} {xs} {ys} {zs} i) s q =
    Carries-append y _ [] _ q.0 (Interleaved-Carries i s q.1)
