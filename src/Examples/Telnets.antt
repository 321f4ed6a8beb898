-- ===== src/Examples/Telnets.antt =====
-- Codecs at the start of a session, and settings of 115200 8N1 and 9600 7O2.
use ttyforge.Common.{ℕ, ◌≤◌, ◌≡◌, refl, true, some, [], ◌∷◌, arith}
use ttyforge.Rfc2217.Telnet.{
  iac, dont, wont, opt_com_port, set_parity, new, subnegotiation, to_list, decode, escape, subneg,
}
use ttyforge.Rfc2217.Telnet.Framing.{decode-escape, decode-subneg}
use ttyforge.Rfc2217.Telnet.Stream.{joined, decode-append}
use ttyforge.Rfc2217.Telnet.Negotiation.{chatter, chatter-known, chatter_unknown}
use ttyforge.Rfc2217.Settings.{PortSettings, commands_to}
use ttyforge.Rfc2217.Settings.Relay.{server_applies, InRange, server_applies-commands_to}
use ttyforge.Rfc2217.Settings.Termios.{Flags, LineModes}
use ttyforge.Bridge.Session.{Observed, relayed}
use ttyforge.Bridge.Session.Relay.{relayed_agrees}

decode-append_example :
    let (t', first) = decode new (65 ∷ iac ∷ []) in
    let (t'', second) = decode t' (iac ∷ 66 ∷ []) in
    decode new (65 ∷ iac ∷ iac ∷ 66 ∷ []) ≡ (t'', joined first second)
decode-append_example = decode-append new (65 ∷ iac ∷ []) (iac ∷ 66 ∷ [])

decode-escape_example :
    decode new (escape (65 ∷ iac ∷ 66 ∷ []))
    ≡ (new, record { payload = 65 ∷ iac ∷ 66 ∷ []; reply = []; notices = [] })
unfolding new
decode-escape_example = decode-escape new (65 ∷ iac ∷ 66 ∷ []) refl

decode-subneg_example : decode new (subneg set_parity (iac ∷ [])) ≡ (
  new,
  record {
    payload = [];
    reply = [];
    notices = to_list (subnegotiation (opt_com_port ∷ set_parity ∷ iac ∷ []));
  },
)
unfolding new
decode-subneg_example = decode-subneg new set_parity (iac ∷ []) refl refl

chatter-known_example : chatter 9 new new wont opt_com_port ≤ 2
chatter-known_example = chatter-known 9 new new wont opt_com_port refl

chatter_unknown_example : chatter 9 new new dont 99 ≡ 9
chatter_unknown_example = chatter_unknown 9 new new dont 99 refl

abbrev fast : PortSettings
fast = record { baud = 115_200; data_bits = 8; parity = 1; stop_bits = 1; flow = 1 }

abbrev odd : PortSettings
odd = record { baud = 9_600; data_bits = 7; parity = 2; stop_bits = 2; flow = 1 }

odd-InRange : InRange odd
odd-InRange = record {
  baud_fits = omega arith;
  data_bits_low = omega arith;
  data_bits_high = omega arith;
  parity_low = omega arith;
  parity_high = omega arith;
  stop_bits_low = omega arith;
  stop_bits_high = omega arith;
  flow_low = omega arith;
  flow_high = omega arith;
}

server_applies-commands_to_example : server_applies (commands_to fast odd) fast ≡ some odd
server_applies-commands_to_example = server_applies-commands_to fast odd odd-InRange

-- Linux's masks.
abbrev linux : Flags
linux = record {
  csize = 48;
  cs5 = 0;
  cs6 = 16;
  cs7 = 32;
  parenb = 256;
  parodd = 512;
  cstopb = 64;
  crtscts = 0x8000_0000;
  ixon = 1_024;
  ixoff = 4_096;
}

abbrev baud_at_face : ℕ → ℕ
baud_at_face speed = speed

abbrev cooked : LineModes
cooked = record { c_cflag = 864; c_iflag = 1_024; ospeed = 9_600 }

abbrev always_odd : LineModes → PortSettings
always_odd tio = odd

relayed_agrees_example :
    let o : Observed = record { com_ok = true; termios = some cooked } in
    ((relayed always_odd o fast).0 ≡ odd)
    × (server_applies (relayed always_odd o fast).1 fast ≡ some odd)
relayed_agrees_example = relayed_agrees always_odd cooked fast odd-InRange (omega arith)
