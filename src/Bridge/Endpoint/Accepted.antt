-- ===== src/Bridge/Endpoint/Accepted.antt =====
-- The endpoints that `parse` accepts, and what it makes of them.
use ttyforge.Common.{
  ◌==◌, if◌then◌else◌, codes, is_empty, All, >>=-eq-some, ℕ, ◌<◌, ◌≡◌, refl, sym, ap, ◌∙◌, false,
  Option, none, some, [], ◌∷◌, ◌++◌, arith,
}
use ttyforge.Common.Text.{Text, strip_prefix}
use ttyforge.Common.Decimal.{
  decimal, digits_value, digits_value-decimal, decimal-cons, IsDigits, decimal-IsDigits,
}
use ttyforge.Bridge.Endpoint.{
  ok, dial, accept, cut_at, rsplit_once, parse_digits, parse_u16, checked_port, split_at,
  split_host_port, parse_dial, parse_accept, parse,
}

abbrev NoColon : Text → Type 0
NoColon = All (λ c. (c == b':') ≡ false)

rsplit_once-none : (t : Text) → NoColon t → rsplit_once t ≡ none
unfolding rsplit_once cut_at
rsplit_once-none [] h = refl
rsplit_once-none (c ∷ t) h = rw (rsplit_once-none t h.1, h.0) refl

-- The text is cut at its last colon.
rsplit_once-last :
    (host port : Text) → NoColon port → rsplit_once (host ++ b':' ∷ port) ≡ some (host, port)
unfolding rsplit_once cut_at
rsplit_once-last [] port h = rw (rsplit_once-none port h) refl
rsplit_once-last (c ∷ host) port h = rw (rsplit_once-last host port h) refl

digits-NoColon : (t : Text) → IsDigits t → NoColon t
digits-NoColon [] h = tt
digits-NoColon (c ∷ t) h = (ground (arith, h.0), digits-NoColon t h.1)

-- A printed port is read back.
parse_digits-read :
    (t : Text) (n : ℕ)
    → is_empty t ≡ false
    → digits_value 0 t ≡ some n
    → n < 65_536
    → parse_digits t ≡ some n
unfolding parse_digits
parse_digits-read [] n e d l = cc
parse_digits-read (c ∷ cs) n e d l = rw d (ground (arith, l))

parse_u16-digits : (t : Text) → IsDigits t → parse_u16 t ≡ parse_digits t
unfolding parse_u16 parse_digits
parse_u16-digits [] h = refl
parse_u16-digits (c ∷ cs) h = ground (arith, h.0)

decimal-nonempty : (n : ℕ) → is_empty (decimal n) ≡ false
decimal-nonempty n = let (d, ds, e) = decimal-cons n in rw e refl

split_host_port-decimal :
    (host : Text) (n : ℕ)
    → 0 < n
    → n < 65_536
    → split_host_port (host ++ b':' ∷ decimal n) ≡ ok (host, n)
unfolding split_host_port checked_port
split_host_port-decimal host n pos l =
    rw
      (
        split_host_port,
        rsplit_once-last host (decimal n) (digits-NoColon (decimal n) (decimal-IsDigits n)),
        split_at,
        parse_u16-digits (decimal n) (decimal-IsDigits n),
        parse_digits-read (decimal n) n (decimal-nonempty n) (digits_value-decimal n) l,
      )
      (ground (arith, pos))

-- `HOST:PORT` behind `tcp://` is dialled as it is written, where the host is not empty and the
-- port is one of 1 to 65535.
pub parse-dial :
    (c : ℕ) (host : Text) (n : ℕ)
    → 0 < n
    → n < 65_536
    → parse (codes "tcp://" ++ ((c ∷ host) ++ b':' ∷ decimal n))
      ≡ ok (dial ((c ∷ host) ++ b':' ∷ decimal n))
unfolding parse strip_prefix
parse-dial c host n pos l = rw (parse_dial, split_host_port-decimal (c ∷ host) n pos l) refl

-- Behind `listen://` a host is kept as it is written, and an empty host is every interface.
pub parse-accept :
    (host : Text) (n : ℕ)
    → 0 < n
    → n < 65_536
    → parse (codes "listen://" ++ (host ++ b':' ∷ decimal n))
      ≡ ok (accept ((if is_empty host then codes "0.0.0.0" else host) ++ b':' ∷ decimal n))
unfolding parse strip_prefix
parse-accept [] n pos l = rw (parse_accept, split_host_port-decimal [] n pos l) refl
parse-accept (c ∷ host) n pos l = rw (parse_accept, split_host_port-decimal (c ∷ host) n pos l) refl

cut_at-join :
    (c : ℕ) (t host port : Text) (o : Option (Text × Text))
    → ((h p : Text) → o ≡ some (h, p) → t ≡ h ++ b':' ∷ p)
    → cut_at c t o ≡ some (host, port)
    → c ∷ t ≡ host ++ b':' ∷ port
unfolding cut_at
cut_at-join c t host port none f e = ground arith
cut_at-join c t host port (some (h, p)) f e = ground (arith, f h p refl)

rsplit_once-join :
    (t host port : Text) → rsplit_once t ≡ some (host, port) → t ≡ host ++ b':' ∷ port
unfolding rsplit_once
rsplit_once-join [] host port h = cc
rsplit_once-join (c ∷ t) host port h =
    cut_at-join c t host port (rsplit_once t) (λ a p e. rsplit_once-join t a p e) h

parse_digits-lt : (t : Text) (n : ℕ) → parse_digits t ≡ some n → n < 65_536
unfolding parse_digits
parse_digits-lt [] n h = cc
parse_digits-lt (c ∷ cs) n h =
    let (v, e, f) = >>=-eq-some (digits_value 0 (c ∷ cs)) _ h in ground arith

parse_u16-lt : (t : Text) (n : ℕ) → parse_u16 t ≡ some n → n < 65_536
unfolding parse_u16
parse_u16-lt [] n h = cc
parse_u16-lt (c ∷ cs) n h = ground (arith, parse_digits-lt cs n, parse_digits-lt (c ∷ cs) n)

checked_port-ok :
    (host port h : Text) (n : ℕ) (v : Option ℕ)
    → checked_port host port v ≡ ok (h, n)
    → (h ≡ host) × (v ≡ some n) × (0 < n)
unfolding checked_port
checked_port-ok host port h n none e = cc
checked_port-ok host port h n (some m) e = ground arith

-- A split of `s` that is accepted: the host, the port, and its number.
abbrev pub Splits : Text → Text → ℕ → Type 0
Splits s host n =
    (port : Text) × (s ≡ host ++ b':' ∷ port) × (parse_u16 port ≡ some n) × (0 < n) × (n < 65_536)

split_at-ok :
    (s host : Text) (n : ℕ) (o : Option (Text × Text))
    → ((h p : Text) → o ≡ some (h, p) → s ≡ h ++ b':' ∷ p)
    → split_at o ≡ ok (host, n)
    → Splits s host n
unfolding split_at
split_at-ok s host n none f e = cc
split_at-ok s host n (some (h, p)) f e =
    let (same_host, v, pos) = checked_port-ok h p host n (parse_u16 p) e in
    (p, f h p refl ∙ ap (λ t. t ++ b':' ∷ p) (sym same_host), v, pos, parse_u16-lt p n v)

-- Where `split_host_port` succeeds the text is the host, a colon and a port, the port is read as a
-- number of 1 to 65535, and that is the number returned.
pub split_host_port-ok :
    (s host : Text) (n : ℕ) → split_host_port s ≡ ok (host, n) → Splits s host n
unfolding split_host_port
split_host_port-ok s host n e =
    split_at-ok s host n (rsplit_once s) (λ h p. rsplit_once-join s h p) e
