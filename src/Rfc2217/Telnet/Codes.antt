-- ===== src/Rfc2217/Telnet/Codes.antt =====
-- The codes of telnet and of RFC 2217, constants of src/forge/rfc2217.rs.
use Prim.Native.Nat.{ℕ}

abbrev pub iac : ℕ
iac = 255

abbrev pub dont : ℕ
dont = 254

abbrev pub do_ : ℕ
do_ = 253

abbrev pub wont : ℕ
wont = 252

abbrev pub will : ℕ
will = 251

abbrev pub sb : ℕ
sb = 250

abbrev pub se : ℕ
se = 240

abbrev pub opt_binary : ℕ
opt_binary = 0

abbrev pub opt_sga : ℕ
opt_sga = 3

abbrev pub opt_com_port : ℕ
opt_com_port = 44

abbrev pub set_baudrate : ℕ
set_baudrate = 1

abbrev pub set_datasize : ℕ
set_datasize = 2

abbrev pub set_parity : ℕ
set_parity = 3

abbrev pub set_stopsize : ℕ
set_stopsize = 4

abbrev pub set_control : ℕ
set_control = 5

abbrev pub server_offset : ℕ
server_offset = 100
