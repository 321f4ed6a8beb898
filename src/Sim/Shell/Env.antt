-- ===== src/Sim/Shell/Env.antt =====
-- The shells' environment, a `BTreeMap<String, String>`: entries in the order of their names.
use ttyforge.Common.{
  ltb, ◌==◌, if◌then◌else◌, Bool-cases, text_eq, text_eq→eq, text_eq_iff, ◌≡◌, refl, inl, inr, Bool,
  true, false, ◌&&◌, ◌||◌, Option, none, some, List, [], ◌∷◌, arith,
}
use ttyforge.Common.Text.{Text}

abbrev pub Env : Type 0
Env = List (Text × Text)

-- The order of `str`: by code points, as by the bytes of UTF-8.
unfoldable pub text_lt : Text → Text → Bool
text_lt [] [] = false
text_lt [] (b ∷ bs) = true
text_lt (a ∷ as_) [] = false
text_lt (a ∷ as_) (b ∷ bs) = ltb a b || a == b && text_lt as_ bs

unfoldable pub get : Text → Env → Option Text
get k [] = none
get k ((j, v) ∷ m) = if text_eq j k then some v else get k m

unfoldable pub insert : Text → Text → Env → Env
unfolding text_lt
insert k v [] = (k, v) ∷ []
insert k v ((j, w) ∷ m) =
    let rest = insert k v m in
    if text_eq j k then (j, v) ∷ m else if text_lt k j then (k, v) ∷ (j, w) ∷ m else (j, w) ∷ rest

unfoldable pub remove : Text → Env → Env
remove k [] = []
remove k ((j, w) ∷ m) = let rest = remove k m in if text_eq j k then m else (j, w) ∷ rest

-- Each name is after those in front of it.
abbrev pub Above : Text → Env → Type 0
Above k [] = Unit
Above k ((j, w) ∷ m) = (text_lt k j ≡ true) × Above j m

abbrev pub IsSorted : Env → Type 0
IsSorted [] = Unit
IsSorted ((j, w) ∷ m) = Above j m

text_lt_irrefl : (a : Text) → text_lt a a ≡ false
unfolding text_lt
text_lt_irrefl [] = refl
text_lt_irrefl (a ∷ as_) = ground (arith, text_lt_irrefl as_)

text_lt_trans : (a b c : Text) → text_lt a b ≡ true → text_lt b c ≡ true → text_lt a c ≡ true
unfolding text_lt
text_lt_trans [] [] c p q = cc
text_lt_trans [] (b ∷ bs) [] p q = cc
text_lt_trans [] (b ∷ bs) (c ∷ cs) p q = refl
text_lt_trans (a ∷ as_) [] c p q = cc
text_lt_trans (a ∷ as_) (b ∷ bs) [] p q = cc
text_lt_trans (a ∷ as_) (b ∷ bs) (c ∷ cs) p q = ground (arith, text_lt_trans as_ bs cs)

text_lt-total : (a b : Text) → text_eq a b ≡ false → text_lt b a ≡ false → text_lt a b ≡ true
unfolding text_lt
text_lt-total [] [] p q = cc
text_lt-total [] (b ∷ bs) p q = refl
text_lt-total (a ∷ as_) [] p q = cc
text_lt-total (a ∷ as_) (b ∷ bs) p q = ground (arith, text_lt-total as_ bs)

pub text_eq-sym : (a b : Text) → text_eq a b ≡ text_eq b a
text_eq-sym [] [] = refl
text_eq-sym [] (b ∷ bs) = refl
text_eq-sym (a ∷ as_) [] = refl
text_eq-sym (a ∷ as_) (b ∷ bs) = ground (arith, text_eq-sym as_ bs)

-- What is read back after a write: the value written under its own name, and any other as before.
pub get-insert :
    (k j v : Text) (m : Env) → get j (insert k v m) ≡ (if text_eq k j then some v else get j m)
unfolding get insert
get-insert k j v [] = refl
get-insert k j v ((i, w) ∷ m) =
    ground (arith, text_eq_iff i k, text_eq_iff i j, text_eq_iff k j, get-insert k j v m)

Above-trans : (a k : Text) (m : Env) → text_lt a k ≡ true → Above k m → Above a m
Above-trans a k [] h s = tt
Above-trans a k ((i, w) ∷ m) h s = (text_lt_trans a k i h s.0, s.1)

lt-ne : (k i : Text) → text_lt k i ≡ true → text_eq i k ≡ false
lt-ne k i h = elim (Bool-cases (text_eq i k)) [
  | inl e ↦ cc (rw (text_eq→eq i k e) at h, text_lt_irrefl k)
  | inr n ↦ n
]

Above-get : (k : Text) (m : Env) → Above k m → get k m ≡ none
unfolding get
Above-get k [] h = refl
Above-get k ((i, w) ∷ m) h = rw (lt-ne k i h.0) (Above-get k m (Above-trans k i m h.0 h.1))

IsSorted-tail : (i w : Text) (m : Env) → Above i m → IsSorted m
IsSorted-tail i w [] h = tt
IsSorted-tail i w ((j, v) ∷ m) h = h.1

-- After a removal the name is gone, and any other reads as before.
pub get-remove :
    (k j : Text) (m : Env)
    → IsSorted m
    → get j (remove k m) ≡ (if text_eq k j then none else get j m)
unfolding get remove
get-remove k j [] h = ground arith
get-remove k j ((i, w) ∷ m) h = ground (
  arith,
  text_eq_iff i k,
  text_eq_iff i j,
  text_eq_iff k j,
  get-remove k j m (IsSorted-tail i w m h),
  Above-get i m h,
)

Above-insert : (a k v : Text) (m : Env) → text_lt a k ≡ true → Above a m → Above a (insert k v m)
unfolding insert
Above-insert a k v [] h s = (h, tt)
Above-insert a k v ((i, w) ∷ m) h s = elim (Bool-cases (text_eq i k)) [
  | inl e ↦ rw e s
  | inr n ↦ elim (Bool-cases (text_lt k i)) [
    | inl before ↦ rw (n, before) (h, (before, s.1))
    | inr after ↦ rw (n, after) (s.0, Above-insert i k v m (text_lt-total i k n after) s.1)
  ]
]

pub insert-IsSorted : (k v : Text) (m : Env) → IsSorted m → IsSorted (insert k v m)
unfolding insert
insert-IsSorted k v [] s = tt
insert-IsSorted k v ((i, w) ∷ m) s = elim (Bool-cases (text_eq i k)) [
  | inl e ↦ rw e s
  | inr n ↦ elim (Bool-cases (text_lt k i)) [
    | inl before ↦ rw (n, before) (before, s)
    | inr after ↦ rw (n, after) (Above-insert i k v m (text_lt-total i k n after) s)
  ]
]

Above-remove : (a k : Text) (m : Env) → Above a m → Above a (remove k m)
unfolding remove
Above-remove a k [] s = tt
Above-remove a k ((i, w) ∷ m) s = elim (Bool-cases (text_eq i k)) [
  | inl e ↦ rw e (Above-trans a i m s.0 s.1)
  | inr n ↦ rw n (s.0, Above-remove i k m s.1)
]

pub remove-IsSorted : (k : Text) (m : Env) → IsSorted m → IsSorted (remove k m)
unfolding remove
remove-IsSorted k [] s = tt
remove-IsSorted k ((i, w) ∷ m) s = elim (Bool-cases (text_eq i k)) [
  | inl e ↦ rw e (IsSorted-tail i w m s)
  | inr n ↦ rw n (Above-remove i k m s)
]
