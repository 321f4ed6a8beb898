-- ===== src/Bridge/Endpoint.antt =====
-- `Endpoint.parse` and `split_host_port` of src/forge/bridge.rs.
pub mod Accepted
use ttyforge.Common.{
  ltb, ◌==◌, if◌then◌else◌, codes, is_empty, ◌>>=◌, ℕ, Option, none, some, [], ◌∷◌, ◌++◌,
}
use ttyforge.Common.Text.{Text, strip_prefix}
use ttyforge.Common.Decimal.{decimal, digits_value}

-- The `bail!`s, and the errors of `split_host_port`.
pub data EndpointError : Type 0 where
  no_port : EndpointError
  bad_port : Text → EndpointError
  zero_port : EndpointError
  no_host : EndpointError
  unknown_scheme : EndpointError

pub data Parsed (A : Type 0) : Type 0 where
  ok : A → Parsed A
  err : EndpointError → Parsed A

pub data Endpoint : Type 0 where
  dial : Text → Endpoint
  accept : Text → Endpoint

-- `s.rsplit_once(':')`: a colon is the last one where there is none behind it.
unfoldable pub cut_at : ℕ → Text → Option (Text × Text) → Option (Text × Text)
cut_at c cs (some (host, port)) = some (c ∷ host, port)
cut_at c cs none = if c == b':' then some ([], cs) else none

unfoldable pub rsplit_once : Text → Option (Text × Text)
unfolding cut_at
rsplit_once [] = none
rsplit_once (c ∷ cs) = cut_at c cs (rsplit_once cs)

-- The digits of `u16::from_str`: at least one, and no overflow.
unfoldable pub parse_digits : Text → Option ℕ
parse_digits [] = none
parse_digits (c ∷ cs) = digits_value 0 (c ∷ cs) >>= λ n. if ltb n 65_536 then some n else none

-- `port.parse::<u16>()`, which takes a `+` in front.
unfoldable pub parse_u16 : Text → Option ℕ
unfolding parse_digits
parse_u16 [] = none
parse_u16 (c ∷ cs) = if c == b'+' then parse_digits cs else parse_digits (c ∷ cs)

-- The port behind the colon, once it has been parsed.
unfoldable pub checked_port : Text → Text → Option ℕ → Parsed (Text × ℕ)
checked_port host port none = err (bad_port port)
checked_port host port (some n) = if n == 0 then err zero_port else ok (host, n)

unfoldable pub split_at : Option (Text × Text) → Parsed (Text × ℕ)
unfolding checked_port
split_at none = err no_port
split_at (some (host, port)) = checked_port host port (parse_u16 port)

unfoldable pub split_host_port : Text → Parsed (Text × ℕ)
unfolding rsplit_once split_at
split_host_port s = split_at (rsplit_once s)

unfoldable pub parse_dial : Text → Parsed Endpoint
unfolding split_host_port
parse_dial rest = elim (split_host_port rest) [
  | err e ↦ err e
  | ok (host, port) ↦ if is_empty host then err no_host else ok (dial rest)
]

-- A listener without a host takes every interface.
unfoldable pub parse_accept : Text → Parsed Endpoint
unfolding split_host_port
parse_accept rest = elim (split_host_port rest) [
  | err e ↦ err e
  | ok (host, port) ↦ ok (accept (if is_empty host then codes "0.0.0.0:" ++ decimal port else rest))
]

unfoldable pub parse : Text → Parsed Endpoint
unfolding strip_prefix parse_dial parse_accept
parse s = elim (strip_prefix (codes "tcp://") s) [
  | some rest ↦ parse_dial rest
  | none ↦ elim (strip_prefix (codes "listen://") s) [
    | some rest ↦ parse_accept rest
    | none ↦ err unknown_scheme
  ]
]
