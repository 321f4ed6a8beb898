-- ===== src/Rfc2217/Settings.antt =====
-- `PortSettings` of src/forge/rfc2217.rs: what a termios says in RFC2217's terms, and the
-- subnegotiations that tell the far end what changed.
pub mod Termios
pub mod Relay
use ttyforge.Common.{
  ◌==◌, if◌then◌else◌, Bytes, codes, ℕ, ◌/◌, ◌%◌, ◌^◌, ◌≡◌, ◌↔◌, Bool, true, ◌&&◌, List, [], ◌∷◌,
  ◌++◌, arith,
}
use ttyforge.Common.Decimal.{decimal}
use ttyforge.Rfc2217.Telnet.{
  set_baudrate, set_datasize, set_parity, set_stopsize, set_control, new, subneg,
}

pub record PortSettings : Type 0 where
  pub baud : ℕ
  pub data_bits : ℕ
  pub parity : ℕ
  pub stop_bits : ℕ
  pub flow : ℕ

unfoldable pub unset : PortSettings
unset = record { baud = 0; data_bits = 8; parity = 1; stop_bits = 1; flow = 1 }

-- `u32::to_be_bytes`.
unfoldable pub to_be_bytes : ℕ → Bytes
to_be_bytes n = n / 2 ^ 24 % 256 ∷ n / 2 ^ 16 % 256 ∷ n / 2 ^ 8 % 256 ∷ n % 256 ∷ []

-- One `if new.x != self.x { out.push(subneg(SET_X, ...)) }`.
unfoldable pub changed : ℕ → ℕ → ℕ → Bytes → List Bytes
changed old new cmd params = if new == old then [] else subneg cmd params ∷ []

unfoldable pub commands_to : PortSettings → PortSettings → List Bytes
unfolding changed
commands_to s new =
    changed s.baud new.baud set_baudrate (to_be_bytes new.baud)
    ++ (changed s.data_bits new.data_bits set_datasize (new.data_bits ∷ [])
        ++ (changed s.parity new.parity set_parity (new.parity ∷ [])
            ++ (changed s.stop_bits new.stop_bits set_stopsize (new.stop_bits ∷ [])
                ++ changed s.flow new.flow set_control (new.flow ∷ []))))

parity_letter : ℕ → ℕ
parity_letter parity = if parity == 2 then b'O' else if parity == 3 then b'E' else b'N'

flow_name : ℕ → Bytes
flow_name flow = if flow == 2 then codes " xon/xoff" else if flow == 3 then codes " rts/cts" else []

unfoldable pub describe : PortSettings → Bytes
unfolding parity_letter flow_name
describe s =
    decimal s.baud
    ++ (b' '
        ∷ (decimal s.data_bits
            ++ (parity_letter s.parity ∷ (decimal s.stop_bits ++ flow_name s.flow))))

-- `now == *last`.
unfoldable pub settings_eq : PortSettings → PortSettings → Bool
settings_eq a b =
    a.baud == b.baud
    && a.data_bits == b.data_bits
    && a.parity == b.parity
    && a.stop_bits == b.stop_bits
    && a.flow == b.flow

pub settings_eq_iff : (a b : PortSettings) → (settings_eq a b ≡ true) ↔ (a ≡ b)
unfolding settings_eq
settings_eq_iff a b = ground arith
