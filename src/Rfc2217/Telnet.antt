-- ===== src/Rfc2217/Telnet.antt =====
-- The telnet codec of src/forge/rfc2217.rs: `Telnet`, `decode`, `negotiate`, `subnegotiation`,
-- `escape`, `subneg`. A `&mut self` method takes the record and returns the new one.
mod Codes
pub mod Framing
pub mod Stream
pub mod Negotiation
pub use Codes.*
use ttyforge.Common.{
  ℕ, ◌+◌, ◌-◌, ◌*◌, Bool, true, false, ◌&&◌, ◌||◌, Option, none, some, List, [], ◌∷◌, ◌++◌, Bytes,
  codes, length, ltb, same, ◌==◌, if◌then◌else◌,
}
use ttyforge.Common.Decimal.{decimal}

-- `Decoded`; its field `data` is `payload` here.
pub record Decoded : Type 0 where
  pub payload : Bytes
  pub reply : Bytes
  pub notices : List Bytes

-- `State`: `in_data` is `Data`, and so on.
pub data State : Type 0 where
  in_data in_iac in_sub in_sub_iac : State
  in_negotiate : ℕ → State

pub record Telnet : Type 0 where
  pub state : State
  pub sub : Bytes
  pub binary_us : Bool
  pub binary_them : Bool
  pub sga_us : Bool
  pub sga_them : Bool
  pub com_port : Bool

abbrev pub nothing : Decoded
nothing = record { payload = []; reply = []; notices = [] }

unfoldable pub new : Telnet
new = record {
  state = in_data;
  sub = [];
  binary_us = true;
  binary_them = true;
  sga_us = true;
  sga_them = true;
  com_port = true;
}

unfoldable pub start : Telnet → Bytes
start t =
    iac ∷ will ∷ opt_binary ∷ iac ∷ do_ ∷ opt_binary ∷ iac ∷ will ∷ opt_sga ∷ iac ∷ do_ ∷ opt_sga
    ∷ iac ∷ will ∷ opt_com_port ∷ []

unfoldable pub com_port_ok : Telnet → Bool
com_port_ok t = t.com_port

abbrev pub is_known : ℕ → Bool
is_known opt = opt == opt_binary || opt == opt_sga || opt == opt_com_port

-- The slot that WILL and WONT move, read and written.
abbrev pub them_slot : ℕ → Telnet → Bool
them_slot opt t =
    if opt == opt_binary then t.binary_them else if opt == opt_sga then t.sga_them else t.com_port

abbrev pub set_them_slot : ℕ → Bool → Telnet → Telnet
set_them_slot opt v t =
    if opt == opt_binary
    then record t { binary_them = v }
    else if opt == opt_sga
    then record t { sga_them = v }
    else record t { com_port = v }

-- The slot that DO and DONT move.
abbrev pub us_slot : ℕ → Telnet → Bool
us_slot opt t =
    if opt == opt_binary then t.binary_us else if opt == opt_sga then t.sga_us else t.com_port

abbrev pub set_us_slot : ℕ → Bool → Telnet → Telnet
set_us_slot opt v t =
    if opt == opt_binary
    then record t { binary_us = v }
    else if opt == opt_sga
    then record t { sga_us = v }
    else record t { com_port = v }

abbrev pub is_offer : ℕ → Bool
is_offer cmd = cmd == will || cmd == wont

-- The two arms of `negotiate` for a known option: the peer offers to do it itself, or asks us to.
answer_offer : Bool → ℕ → Telnet → Telnet × Option ℕ
answer_offer agreed opt t =
    if same (them_slot opt t) agreed
    then (t, none)
    else (set_them_slot opt agreed t, some (if agreed then do_ else dont))

answer_request : Bool → ℕ → Telnet → Telnet × Option ℕ
answer_request agreed opt t =
    if same (us_slot opt t) agreed
    then (t, none)
    else (set_us_slot opt agreed t, some (if agreed then will else wont))

unfoldable pub negotiate : ℕ → ℕ → Telnet → Telnet × Option ℕ
unfolding answer_offer answer_request
negotiate cmd opt t =
    if is_known opt
    then if is_offer cmd
      then answer_offer (cmd == will) opt t
      else answer_request (cmd == do_) opt t
    else (t, some (if is_offer cmd then dont else wont))

-- The `match cmd.checked_sub(SERVER_OFFSET)?`.
answer_name : ℕ → Option Bytes
answer_name cmd =
    if ltb cmd server_offset
    then none
    else let c = cmd - server_offset in
      if c == set_baudrate
      then some (codes "baudrate")
      else if c == set_datasize
      then some (codes "datasize")
      else if c == set_parity
      then some (codes "parity")
      else if c == set_stopsize
      then some (codes "stopsize")
      else if c == set_control
      then some (codes "control")
      else none

-- Four bytes are a big-endian `u32`, any other non-empty run gives its first byte.
answer_value : Bytes → Option ℕ
answer_value [] = none
answer_value (a ∷ b ∷ c ∷ d ∷ []) = some (((a * 256 + b) * 256 + c) * 256 + d)
answer_value (a ∷ rest) = some a

answer_text : Option Bytes → Option ℕ → Option Bytes
answer_text (some name) (some value) =
    some (codes "peer " ++ (name ++ (codes " = " ++ decimal value)))
answer_text _ _ = none

-- `subnegotiation` on the bytes collected in `sub`.
unfoldable pub subnegotiation : Bytes → Option Bytes
unfolding answer_name answer_value answer_text
subnegotiation (opt ∷ cmd ∷ params) =
    if opt == opt_com_port then answer_text (answer_name cmd) (answer_value params) else none
subnegotiation _ = none

abbrev pub to_list {ℓ} : {A : Type ℓ} → Option A → List A
to_list none = []
to_list (some a) = a ∷ []

abbrev pub reply_bytes : ℕ → Option ℕ → Bytes
reply_bytes opt none = []
reply_bytes opt (some cmd) = iac ∷ cmd ∷ opt ∷ []

-- The body of `decode`'s loop, by the state it finds.
unfoldable pub step_in : State → Telnet → Decoded → ℕ → Telnet × Decoded
step_in in_data t out b =
    if b == iac
    then (record t { state = in_iac }, out)
    else (t, record out { payload = out.payload ++ b ∷ [] })
step_in in_iac t out b =
    if b == iac
    then (record t { state = in_data }, record out { payload = out.payload ++ iac ∷ [] })
    else if b == will || b == wont || b == do_ || b == dont
    then (record t { state = in_negotiate b }, out)
    else if b == sb
    then (record t { state = in_sub; sub = [] }, out)
    else (record t { state = in_data }, out)
step_in (in_negotiate cmd) t out b =
    let (t', answer) = negotiate cmd b t in
    (record t' { state = in_data }, record out { reply = out.reply ++ reply_bytes b answer })
step_in in_sub t out b =
    if b == iac
    then (record t { state = in_sub_iac }, out)
    else (record t { sub = t.sub ++ b ∷ [] }, out)
step_in in_sub_iac t out b =
    if b == iac
    then (record t { state = in_sub; sub = t.sub ++ iac ∷ [] }, out)
    else if b == se
    then (
      record t { state = in_data; sub = [] },
      record out { notices = out.notices ++ to_list (subnegotiation t.sub) },
    )
    else (record t { state = in_data; sub = [] }, out)

-- The loop of `decode` from an output already begun.
unfoldable pub decode_onto : Telnet → Decoded → Bytes → Telnet × Decoded
unfolding step_in
decode_onto t out [] = (t, out)
decode_onto t out (b ∷ bs) = let (t', out') = step_in t.state t out b in decode_onto t' out' bs

unfoldable pub decode : Telnet → Bytes → Telnet × Decoded
unfolding decode_onto
decode t input = decode_onto t nothing input

unfoldable pub escape_each : Bytes → Bytes
escape_each [] = []
escape_each (b ∷ bs) = let rest = escape_each bs in if b == iac then b ∷ iac ∷ rest else b ∷ rest

unfoldable pub contains : ℕ → Bytes → Bool
contains k [] = false
contains k (b ∷ bs) = b == k || contains k bs

unfoldable pub escape : Bytes → Bytes
unfolding escape_each contains
escape bytes = if contains iac bytes then escape_each bytes else bytes

unfoldable pub subneg : ℕ → Bytes → Bytes
subneg cmd params = iac ∷ sb ∷ opt_com_port ∷ cmd ∷ (escape params ++ iac ∷ se ∷ [])
