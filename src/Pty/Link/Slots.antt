-- ===== src/Pty/Link/Slots.antt =====
-- The default paths of a tag, one for each slot.
use ttyforge.Common.{
  ◌==◌, if◌then◌else◌, true-false, Bool-cases, codes, take, drop, text_eq, ℕ, ◌≡◌, refl, sym, ap,
  ◌∙◌, inl, inr, true, false, [], ◌∷◌, ◌++◌, arith,
}
use ttyforge.Common.Text.{Text}
use ttyforge.Common.Decimal.{
  decimal, digits_value, digits_value-decimal, IsDigits, decimal-IsDigits,
}
use ttyforge.Pty.Link.{default_link}

append-cancel : (a : Text) {x y : Text} → a ++ x ≡ a ++ y → x ≡ y
append-cancel [] h = h
append-cancel (c ∷ a) h = append-cancel a (ap (λ t. drop 1 t) h)

-- The text up to the first dot.
before_dot : Text → Text
before_dot [] = []
before_dot (c ∷ cs) = let rest = before_dot cs in if c == b'.' then [] else c ∷ rest

before_dot-digits : (t x : Text) → IsDigits t → before_dot (t ++ b'.' ∷ x) ≡ t
unfolding before_dot
before_dot-digits [] x h = refl
before_dot-digits (c ∷ t) x h = ground (arith, h.0, before_dot-digits t x h.1)

decimal_injective : (n m : ℕ) → decimal n ≡ decimal m → n ≡ m
decimal_injective n m h =
    let e = sym (digits_value-decimal n) ∙ ap (λ t. digits_value 0 t) h ∙ digits_value-decimal m in
    ground arith

heads : (x y : Text) → b'-' ∷ x ≡ b'.' ∷ y → ⊥
heads x y h = true-false (ap (λ t. text_eq (take 1 t) (b'-' ∷ [])) h)

abbrev numbered : Text → ℕ → Text
numbered tag n = codes "/tmp/ttyforge-" ++ (tag ++ (b'-' ∷ (decimal n ++ codes ".pty")))

abbrev first : Text → Text
first tag = codes "/tmp/ttyforge-" ++ (tag ++ codes ".pty")

numbered-first : (tag : Text) (n : ℕ) → numbered tag n ≡ first tag → ⊥
numbered-first tag n h =
    heads (decimal n ++ codes ".pty") (codes "pty")
      (append-cancel tag (append-cancel (codes "/tmp/ttyforge-") h))

numbered_injective : (tag : Text) (n m : ℕ) → numbered tag n ≡ numbered tag m → n ≡ m
numbered_injective tag n m h =
    let e =
      append-cancel (b'-' ∷ []) (append-cancel tag (append-cancel (codes "/tmp/ttyforge-") h)) in
    decimal_injective n m (
      sym (before_dot-digits (decimal n) (codes "pty") (decimal-IsDigits n))
      ∙ ap before_dot e
      ∙ before_dot-digits (decimal m) (codes "pty") (decimal-IsDigits m))

default_link-first : (tag : Text) (n : ℕ) → (n == 1) ≡ true → default_link tag n ≡ first tag
unfolding default_link
default_link-first tag n e = rw e refl

default_link-numbered :
    (tag : Text) (n : ℕ) → (n == 1) ≡ false → default_link tag n ≡ numbered tag n
unfolding default_link
default_link-numbered tag n e = rw e refl

-- Different slots of a tag have different paths.
pub default_link_injective :
    (tag : Text) (n m : ℕ) → default_link tag n ≡ default_link tag m → n ≡ m
default_link_injective tag n m h = elim (Bool-cases (n == 1)) [
  | inl e ↦ elim (Bool-cases (m == 1)) [
    | inl d ↦ ground arith
    | inr d ↦ absurd (
        numbered-first tag m
          (sym (default_link-numbered tag m d) ∙ sym h ∙ default_link-first tag n e))
  ]
  | inr e ↦ elim (Bool-cases (m == 1)) [
    | inl d ↦ absurd (
        numbered-first tag n (sym (default_link-numbered tag n e) ∙ h ∙ default_link-first tag m d))
    | inr d ↦
        numbered_injective tag n m
          (sym (default_link-numbered tag n e) ∙ h ∙ default_link-numbered tag m d)
  ]
]
