-- ===== src/Rfc2217/Settings/Relay.antt =====
-- What the relayed subnegotiations mean to the far end, by an independent reading of their bytes as
-- RFC 2217 gives them to a server.
use ttyforge.Common.{
  ◌==◌, if◌then◌else◌, Bytes, length, is_empty, ◌>>=◌, ℕ, ◌+◌, ◌*◌, ◌/◌, ◌%◌, ◌^◌, ◌≤◌, ◌<◌, ◌≡◌,
  refl, ◌∙◌, Bool, true, false, ◌&&◌, Option, none, some, List, [], ◌∷◌, ◌++◌, append-nil, arith,
}
use ttyforge.Rfc2217.Telnet.{
  iac, sb, se, opt_com_port, set_baudrate, set_datasize, set_parity, set_stopsize, set_control, new,
  escape_each, subneg,
}
use ttyforge.Rfc2217.Telnet.Framing.{escape-eq}
use ttyforge.Rfc2217.Settings.{PortSettings, to_be_bytes, changed, commands_to}

consed : ℕ → Option Bytes → Option Bytes
consed x none = none
consed x (some xs) = some (x ∷ xs)

-- Reads up to IAC SE, which must end the bytes; the flag is set behind an IAC.
pub unescape_to_end : Bool → Bytes → Option Bytes
unfolding consed
unescape_to_end after_iac [] = none
unescape_to_end false (b ∷ bs) =
    let quoted = unescape_to_end true bs in
    let plain = consed b (unescape_to_end false bs) in if b == iac then quoted else plain
unescape_to_end true (b ∷ bs) =
    let rest = consed iac (unescape_to_end false bs) in
    if b == iac then rest else if b == se && is_empty bs then some [] else none

-- A COM-PORT-OPTION subnegotiation as its command and parameters.
pub unframe : Bytes → Option (ℕ × Bytes)
unfolding unescape_to_end
unframe (i ∷ s ∷ o ∷ cmd ∷ rest) =
    if i == iac && s == sb && o == opt_com_port
    then (unescape_to_end false rest >>= λ params. some (cmd, params))
    else none
unframe _ = none

-- A parameter of 0 asks for the current value and sets nothing.
abbrev pub unless_query : ℕ → ℕ → ℕ
unless_query old v = if v == 0 then old else v

-- The server's side of a command; none for one that it does not know.
pub apply_command : ℕ × Bytes → PortSettings → Option PortSettings
apply_command (cmd, a ∷ b ∷ c ∷ d ∷ []) s =
    if cmd == set_baudrate
    then some (record s { baud = unless_query s.baud (((a * 256 + b) * 256 + c) * 256 + d) })
    else none
apply_command (cmd, v ∷ []) s =
    if cmd == set_datasize
    then some (record s { data_bits = unless_query s.data_bits v })
    else if cmd == set_parity
    then some (record s { parity = unless_query s.parity v })
    else if cmd == set_stopsize
    then some (record s { stop_bits = unless_query s.stop_bits v })
    else if cmd == set_control
    then some (record s { flow = unless_query s.flow v })
    else none
apply_command _ s = none

unfoldable pub server_applies : List Bytes → PortSettings → Option PortSettings
unfolding unframe apply_command
server_applies [] s = some s
server_applies (c ∷ cs) s = do f ← unframe c; s' ← apply_command f s; server_applies cs s'

unescape_to_end-escape_each :
    (params : Bytes) → unescape_to_end false (escape_each params ++ iac ∷ se ∷ []) ≡ some params
unfolding unescape_to_end escape_each
unescape_to_end-escape_each [] = refl
unescape_to_end-escape_each (b ∷ bs) = ground (arith, unescape_to_end-escape_each bs)

-- The far end reads the command and the parameters that were framed, 0xFF bytes included.
pub unframe-subneg : (cmd : ℕ) (params : Bytes) → unframe (subneg cmd params) ≡ some (cmd, params)
unfolding unframe subneg
unframe-subneg cmd params = rw (escape-eq params, unescape_to_end-escape_each params)

server_applies-changed :
    (old v cmd : ℕ) (params : Bytes) (rest : List Bytes) (s : PortSettings)
    → server_applies (changed old v cmd params ++ rest) s ≡ (
        if v == old
        then server_applies rest s
        else (apply_command (cmd, params) s >>= server_applies rest))
unfolding changed server_applies
server_applies-changed old v cmd params rest s = ground (arith, unframe-subneg cmd params)

be_value :
    (n : ℕ)
    → n < 2 ^ 32
    → ((n / 2 ^ 24 % 256 * 256 + n / 2 ^ 16 % 256) * 256 + n / 2 ^ 8 % 256) * 256 + n % 256 ≡ n
be_value n h = omega arith

tells_baud :
    (s : PortSettings) (v : ℕ) (rest : List Bytes)
    → v < 2 ^ 32
    → server_applies (changed s.baud v set_baudrate (to_be_bytes v) ++ rest) s
      ≡ server_applies rest (record s { baud = unless_query s.baud v })
unfolding apply_command to_be_bytes
tells_baud s v rest h =
    ground
      (arith, be_value v h, server_applies-changed s.baud v set_baudrate (to_be_bytes v) rest s)

tells_data_bits :
    (s : PortSettings) (v : ℕ) (rest : List Bytes)
    → 1 ≤ v
    → server_applies (changed s.data_bits v set_datasize (v ∷ []) ++ rest) s
      ≡ server_applies rest (record s { data_bits = v })
unfolding apply_command
tells_data_bits s v rest h =
    ground (arith, server_applies-changed s.data_bits v set_datasize (v ∷ []) rest s)

tells_parity :
    (s : PortSettings) (v : ℕ) (rest : List Bytes)
    → 1 ≤ v
    → server_applies (changed s.parity v set_parity (v ∷ []) ++ rest) s
      ≡ server_applies rest (record s { parity = v })
unfolding apply_command
tells_parity s v rest h =
    ground (arith, server_applies-changed s.parity v set_parity (v ∷ []) rest s)

tells_stop_bits :
    (s : PortSettings) (v : ℕ) (rest : List Bytes)
    → 1 ≤ v
    → server_applies (changed s.stop_bits v set_stopsize (v ∷ []) ++ rest) s
      ≡ server_applies rest (record s { stop_bits = v })
unfolding apply_command
tells_stop_bits s v rest h =
    ground (arith, server_applies-changed s.stop_bits v set_stopsize (v ∷ []) rest s)

tells_flow :
    (s : PortSettings) (v : ℕ) (rest : List Bytes)
    → 1 ≤ v
    → server_applies (changed s.flow v set_control (v ∷ []) ++ rest) s
      ≡ server_applies rest (record s { flow = v })
unfolding apply_command
tells_flow s v rest h = ground (arith, server_applies-changed s.flow v set_control (v ∷ []) rest s)

-- The ranges that RFC 2217 gives the settings.
pub record InRange (s : PortSettings) : Type 0 where
  pub baud_fits : s.baud < 2 ^ 32
  pub data_bits_low : 5 ≤ s.data_bits
  pub data_bits_high : s.data_bits ≤ 8
  pub parity_low : 1 ≤ s.parity
  pub parity_high : s.parity ≤ 3
  pub stop_bits_low : 1 ≤ s.stop_bits
  pub stop_bits_high : s.stop_bits ≤ 2
  pub flow_low : 1 ≤ s.flow
  pub flow_high : s.flow ≤ 3

-- A server at settings `s` that receives `commands_to` of `s` and a `new` in range ends at `new`,
-- but keeps its baud rate where `new` has none (0, a query).
pub server_applies-commands_to :
    (s new : PortSettings)
    → InRange new
    → server_applies (commands_to s new) s
      ≡ some (record new { baud = unless_query s.baud new.baud })
unfolding commands_to
server_applies-commands_to s new h =
    let t1 = record s { baud = unless_query s.baud new.baud } in
    let t2 = record t1 { data_bits = new.data_bits } in
    let t3 = record t2 { parity = new.parity } in
    let t4 = record t3 { stop_bits = new.stop_bits } in
    tells_baud s new.baud _ (omega arith)
    ∙ tells_data_bits t1 new.data_bits _ (omega arith)
    ∙ tells_parity t2 new.parity _ (omega arith)
    ∙ tells_stop_bits t3 new.stop_bits _ (omega arith)
    ∙ rw (← append-nil (changed s.flow new.flow set_control (new.flow ∷ [])))
        (tells_flow t4 new.flow [] (omega arith) ∙ unfold server_applies in refl)

abbrev differs : ℕ → ℕ → ℕ
differs a b = if b == a then 0 else 1

-- One command for each setting that differs, so none at all where nothing changed.
pub length-commands_to :
    (s new : PortSettings)
    → length (commands_to s new)
      ≡ differs s.baud new.baud
        + differs s.data_bits new.data_bits
        + differs s.parity new.parity
        + differs s.stop_bits new.stop_bits
        + differs s.flow new.flow
unfolding commands_to
length-commands_to s new = ground arith
