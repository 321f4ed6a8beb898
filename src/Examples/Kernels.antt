-- ===== src/Examples/Kernels.antt =====
-- Descriptors that are numbers: a port's two, and a serial device's one.
use ttyforge.Wire.Plan
use ttyforge.Common.{
  ltb, ◌==◌, if◌then◌else◌, Bytes, codes, ℕ, ◌≡◌, refl, sym, ap, ◌∙◌, Bool, true, false, ◌||◌,
  Option, none, some, [], ◌∷◌, ◌++◌,
}
use ttyforge.Common.Text.{is_whitespace, trim_start, trim_end, trim}
use ttyforge.Common.Decimal.{digits_value}
use ttyforge.Run.{exit_code}
use ttyforge.Wire.Float.{scaled}
use ttyforge.Wire.Plan.{
  WireSpec, cell_bytes_of, line_time, byte_time_of, new, build_pair_nth, build_pair, transform,
  jitter_sample, plan_chunks, plan,
}
use ttyforge.Wire.Delivery.{got}
use ttyforge.Wire.Parse.{FloatText, parse_duration}
use ttyforge.Wire.Parse.Units.{microseconds, ReadAs, parse_duration-ReadAs}
use ttyforge.Serial.{Platform, rates, find_baud, listed_or_any, speed_of}
use ttyforge.Serial.Device.{LineTermios, Devices, open_port}
use ttyforge.Serial.Device.Opened.{HasDevices, Came, open_port-Came}
use ttyforge.Pty.Create.{Descriptors, wrap_master, name_slave, opened_pty, create}
use ttyforge.Pty.Create.Leaks.{HasTable, create-left_open}
use ttyforge.Sim.Exec.{
  printed, ended, to_child, from_child, fed, ExecLoop, torn_down, signalled, child_ended,
  exec_result,
}
use ttyforge.Sim.Exec.Piped.{exec_prefix, exit_code-exec_result}
use ttyforge.Wire.Chunks.{chunks}

abbrev Table : Type 0
Table = ℕ → Bool

abbrev pair_at : Bool → Bool → Table → Table × Option (ℕ × ℕ)
pair_at false false s = (λ fd. s fd || (fd == 3 || fd == 4), some (3, 4))
pair_at _ _ s = (s, none)

-- The multiplexer gives 3 and 4 if both are free; nothing can be registered.
abbrev full_reactor : Descriptors Table
full_reactor = record {
  openpty = λ s. pair_at (s 3) (s 4) s;
  ptsname_r = λ fd s. some (codes "/dev/pts/1");
  set_nonblocking = λ fd s. s;
  register = λ fd s. (s, false);
  close = λ fd s x. if x == fd then false else s x;
}

pair_at-none : (a b : Bool) (s s' : Table) → pair_at a b s ≡ (s', none) → (fd : ℕ) → s' fd ≡ s fd
pair_at-none false false s s' e fd = cc
pair_at-none false true s s' e fd = ap (λ r. r.0 fd) (sym e)
pair_at-none true b s s' e fd = ap (λ r. r.0 fd) (sym e)

pair_at-some :
    (a b : Bool) (s s' : Table) (m v : ℕ)
    → s 3 ≡ a
    → s 4 ≡ b
    → pair_at a b s ≡ (s', some (m, v))
    → (s m ≡ false) × (s v ≡ false) × ((fd : ℕ) → s' fd ≡ (s fd || (fd == m || fd == v)))
pair_at-some false false s s' m v ha hb e =
    let em : 3 ≡ m = cc in
    let ev : 4 ≡ v = cc in
    (
      ap s (sym em) ∙ ha,
      ap s (sym ev) ∙ hb,
      λ fd. ap (λ r. r.0 fd) (sym e) ∙ (λ i. s fd || (fd == em i || fd == ev i)),
    )
pair_at-some false true s s' m v ha hb e = cc
pair_at-some true b s s' m v ha hb e = cc

full_reactor-HasTable : HasTable Table full_reactor
full_reactor-HasTable = record {
  is_open = λ s fd. s fd;
  openpty_fails = λ s s' e fd. pair_at-none (s 3) (s 4) s s' e fd;
  openpty_opens = λ s s' m v e. pair_at-some (s 3) (s 4) s s' m v refl refl e;
  nonblocking_keeps = λ s m fd. refl;
  register_keeps = λ s m fd. refl;
  close_closes = λ s m fd. refl;
}

-- Standard input, output and error are open.
abbrev three_open : Table
three_open fd = ltb fd 3

create-left_open_example : (create full_reactor three_open).0 4 ≡ false
unfolding create opened_pty name_slave wrap_master full_reactor-HasTable
create-left_open_example = create-left_open full_reactor full_reactor-HasTable three_open 4

-- A world with one device: whether each descriptor is open, and the device's termios.
abbrev Line : Type 0
Line = Table × LineTermios

abbrev line_at : Bool → Line → Line × Option ℕ
line_at false l = ((λ fd. l.0 fd || fd == 5, l.1), some 5)
line_at true l = (l, none)

abbrev one_device : Devices Line
one_device = record {
  has_nul = λ path. false;
  open_tty = λ path l. line_at (l.0 5) l;
  close = λ fd l. (λ x. if x == fd then false else l.0 x, l.1);
  register = λ fd l. (l, true);
  tcgetattr = λ fd l. some l.1;
  tcsetattr = λ fd t l. ((l.0, t), true);
  cfmakeraw = λ t. record t { modes = record t.modes { c_iflag = 0; c_oflag = 0; c_lflag = 0 } };
  clocal = 2048;
  cread = 128;
}

line_at-none : (b : Bool) (l l' : Line) → line_at b l ≡ (l', none) → (x : ℕ) → l'.0 x ≡ l.0 x
line_at-none false l l' e x = cc
line_at-none true l l' e x = ap (λ r. r.0.0 x) (sym e)

line_at-some :
    (b : Bool) (l l' : Line) (fd : ℕ)
    → l.0 5 ≡ b
    → line_at b l ≡ (l', some fd)
    → (l.0 fd ≡ false) × ((x : ℕ) → l'.0 x ≡ (l.0 x || x == fd))
line_at-some true l l' fd h e = cc
line_at-some false l l' fd h e =
    let at : 5 ≡ fd = cc in
    (ap l.0 (sym at) ∙ h, λ x. ap (λ r. r.0.0 x) (sym e) ∙ (λ i. l.0 x || x == at i))

one_device-HasDevices : HasDevices Line one_device
one_device-HasDevices = record {
  is_open = λ l fd. l.0 fd;
  asked = λ l fd. some l.1;
  icanon = 2;
  echo = 8;
  ixon = 1024;
  icrnl = 256;
  opost = 1;
  raw_local = λ t. (refl, refl);
  raw_input = λ t. (refl, refl);
  raw_output = λ t. refl;
  open_fails = λ path l l' e x. line_at-none (l.0 5) l l' e x;
  open_opens = λ path l l' fd e. line_at-some (l.0 5) l l' fd refl e;
  register_keeps = λ l fd x. (refl, refl);
  set_keeps = λ l fd x t. refl;
  set_asks = λ l fd t. refl;
  close_closes = λ l fd x. refl;
}

abbrev cooked_line : Line
cooked_line = (
  three_open,
  record {
    modes = record {
      c_iflag = 256;
      c_oflag = 4;
      c_cflag = 48;
      c_lflag = 10;
      ispeed = 13;
      ospeed = 13;
    };
    vmin = 1;
    vtime = 0;
  },
)

abbrev numbered_speeds : Platform
numbered_speeds = record { code = λ b. b; is_linux = true }

open_port-Came_example :
    Came one_device one_device-HasDevices 9_600 three_open
      (open_port one_device numbered_speeds (codes "/dev/ttyUSB0") 9_600 cooked_line)
unfolding speed_of find_baud rates listed_or_any one_device-HasDevices
open_port-Came_example =
    open_port-Came one_device one_device-HasDevices numbered_speeds (codes "/dev/ttyUSB0") 9_600
      9_600 cooked_line refl

-- A child that prints twice and exits while its second output is on its way, and a port that is read
-- once.
abbrev late_spec : WireSpec scaled.F
late_spec = record {
  baud = none;
  latency = some 5;
  jitter = none;
  drop = none;
  corrupt = none;
  seed = none;
}

printing :
    ExecLoop scaled
      (λ s. (s, false))
      late_spec
      0
      (got (1 ∷ 2 ∷ 3 ∷ []) ∷ [])
      (printed (4 ∷ []) ∷ printed (5 ∷ []) ∷ ended ∷ [])
      (1 ∷ 2 ∷ 3 ∷ [])
      []
      (4 ∷ [])
      (5 ∷ [])
unfolding to_child from_child fed plan plan_chunks chunks transform scaled line_time jitter_sample
    build_pair build_pair_nth Plan.new byte_time_of cell_bytes_of
printing = torn_down refl refl refl

abbrev typed_in : Bytes
typed_in = 1 ∷ 2 ∷ 3 ∷ []

abbrev shown : Bytes
shown = 4 ∷ []

exec_prefix_example : (typed_in ++ [] ≡ 1 ∷ 2 ∷ 3 ∷ []) × (shown ++ (5 ∷ []) ≡ 4 ∷ 5 ∷ [])
exec_prefix_example =
    exec_prefix scaled (λ s. (s, false)) late_spec 0 (got (1 ∷ 2 ∷ 3 ∷ []) ∷ [])
      (printed (4 ∷ []) ∷ printed (5 ∷ []) ∷ ended ∷ []) (1 ∷ 2 ∷ 3 ∷ []) [] (4 ∷ []) (5 ∷ [])
      (λ s. refl) refl refl printing

exit_code-exec_result_example : exit_code (exec_result (child_ended (signalled 9))) ≡ some 0
exit_code-exec_result_example = exit_code-exec_result (signalled 9)

-- Decimals are digits.
abbrev scaled_number_of : Option ℕ → Option scaled.F
scaled_number_of none = none
scaled_number_of (some n) = some (scaled.of_nat n)

abbrev digits_only : FloatText scaled
digits_only = record {
  parse_f = λ t. scaled_number_of (digits_value 0 t);
  is_finite = λ x. true;
  mul_f = λ a b. a;
  le_f = λ a b. scaled.lt_f a b || scaled.eq_f a b;
  micro = scaled.one_f;
  milli = scaled.one_f;
}

parse_duration-ReadAs_example :
    ReadAs scaled digits_only digits_only.micro
      (some (scaled.of_nat 250))
      (parse_duration scaled digits_only (codes "250us"))
unfolding trim trim_start trim_end is_whitespace digits_value
parse_duration-ReadAs_example =
    parse_duration-ReadAs scaled digits_only microseconds (codes "25") b'0' refl refl refl
