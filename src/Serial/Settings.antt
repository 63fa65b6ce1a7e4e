-- ===== src/Serial/Settings.antt =====
-- `toSpeed` and `applySettings`.
use com_lib.Posix.{Answer, done, failed}
use com_lib.Transport.{invalid_configuration}
use com_lib.Serial.Defs.{
  Termios, Tty, DataBits, five, six, seven, eight, Parity, no_parity, even, odd, mark, space,
  StopBits, two, FlowControl, hardware, software, SerialConfig, SerialPort, report_error,
}
use com_lib.Prelude.{
  ℕ, ◌-◌, ◌/◌, ◌%◌, ◌^◌, Bool, true, false, Option, none, some, bit_and, bit_or, ◌==◌,
  if◌then◌else◌,
}

-- `flags & ~mask` of a 32-bit word.
abbrev pub clear : ℕ → ℕ → ℕ
clear flags mask = bit_and flags (2 ^ 32 - 1 - mask)

-- The `cc_t` of the time-out in tenths of a second.
unfoldable pub deciseconds : ℕ → ℕ
deciseconds ms = ms / 100 % 2 ^ 8

module _ {K : Type 0} (os : Tty K) where
  unfoldable pub to_speed : ℕ → ℕ
  to_speed baud =
      if baud == 9600
      then os.b9600
      else if baud == 19200
      then os.b19200
      else if baud == 38400
      then os.b38400
      else if baud == 57600
      then os.b57600
      else if baud == 115200
      then os.b115200
      else if baud == 230400
      then os.b230400
      else if baud == 460800
      then os.b460800
      else if baud == 921600
      then os.b921600
      else 0

  abbrev pub size_flag : DataBits → ℕ
  size_flag five = os.cs5
  size_flag six = os.cs6
  size_flag seven = os.cs7
  size_flag eight = os.cs8

  -- The flags with the parity, if it is supported.
  abbrev pub with_parity : Parity → ℕ → Option ℕ
  with_parity no_parity flags = some flags
  with_parity even flags = some (bit_or flags os.parenb)
  with_parity odd flags = some (bit_or flags (bit_or os.parenb os.parodd))
  with_parity mark flags = none
  with_parity space flags = none

  abbrev pub with_stop_bits : StopBits → ℕ → ℕ
  with_stop_bits two flags = bit_or flags os.cstopb
  with_stop_bits _ flags = clear flags os.cstopb

  abbrev pub with_hardware : FlowControl → ℕ → ℕ
  with_hardware hardware flags = bit_or (clear flags os.crtscts) os.crtscts
  with_hardware _ flags = clear flags os.crtscts

  abbrev pub with_software : FlowControl → ℕ → ℕ
  with_software software flags = bit_or flags (bit_or os.ixon (bit_or os.ixoff os.ixany))
  with_software _ flags = clear flags (bit_or os.ixon (bit_or os.ixoff os.ixany))

  -- What `applySettings` makes of the raw attributes, if the configuration is supported.
  unfoldable pub attributes : SerialConfig → Termios → Option Termios
  unfolding to_speed deciseconds
  attributes c raw =
      let speed = to_speed c.baud_rate in
      if speed == 0
      then none
      else let sized = bit_or (clear raw.cflag os.csize) (size_flag c.data_bits) in
        elim (with_parity c.parity (clear sized (bit_or os.parenb os.parodd))) [
          | none ↦ none
          | some flags ↦ some (record {
            cflag = with_hardware c.flow_control (with_stop_bits c.stop_bits flags);
            iflag = with_software c.flow_control raw.iflag;
            input_speed = speed;
            output_speed = speed;
            vmin = 0;
            vtime = deciseconds c.read_timeout;
          })
        ]

  unfoldable pub after_set : ℕ → Answer (Unit {0}) × K → SerialPort K → Bool × SerialPort K
  after_set fd (failed e, k) p =
      (false, report_error invalid_configuration (record p { kernel = k }))
  after_set fd (done u, k) p = (true, record p { kernel = os.flush fd k })

  unfoldable pub after_get : ℕ → Answer Termios × K → SerialPort K → Bool × SerialPort K
  unfolding attributes after_set
  after_get fd (failed e, k) p =
      (false, report_error invalid_configuration (record p { kernel = k }))
  after_get fd (done tty, k) p = elim (attributes p.config (os.make_raw tty)) [
    | none ↦ (false, report_error invalid_configuration (record p { kernel = k }))
    | some set ↦ after_set fd (os.set_attributes fd set k) p
  ]

  unfoldable pub apply_settings : SerialPort K → Bool × SerialPort K
  unfolding after_get
  apply_settings p = elim p.file_descriptor [
    | none ↦ (false, p)
    | some fd ↦ after_get fd (os.get_attributes fd p.kernel) p
  ]
