-- ===== src/Serial/Defs.antt =====
-- The calls of the system, the configuration and the state of a serial port. A descriptor of -1 is `none`.
use com_lib.Posix.{Answer}
use com_lib.Transport.{Protocol, Direction, ErrorCode}
use com_lib.Transport.Link
use com_lib.Transport.Link.{Link, new_link}
use com_lib.Prelude.{ℕ, Bool, true, false, List, Option, none, some}

-- The part of `struct termios` that the code sets after `cfmakeraw`.
pub record Termios : Type 0 where
  pub cflag : ℕ
  pub iflag : ℕ
  pub input_speed : ℕ
  pub output_speed : ℕ
  pub vmin : ℕ
  pub vtime : ℕ

-- The calls over an unknown state, and the constants of termios.h. `make_raw` is `cfmakeraw`.
pub record Tty (K : Type 0) : Type 0 where
  pub open_file : List ℕ → Bool → K → Answer ℕ × K
  pub close_fd : ℕ → K → K
  pub get_attributes : ℕ → K → Answer Termios × K
  pub make_raw : Termios → Termios
  pub set_attributes : ℕ → Termios → K → Answer (Unit {0}) × K
  pub flush : ℕ → K → K
  pub write : ℕ → List ℕ → K → Answer ℕ × K
  pub read : ℕ → ℕ → K → Answer (List ℕ) × K
  pub b9600 : ℕ
  pub b19200 : ℕ
  pub b38400 : ℕ
  pub b57600 : ℕ
  pub b115200 : ℕ
  pub b230400 : ℕ
  pub b460800 : ℕ
  pub b921600 : ℕ
  pub csize : ℕ
  pub cs5 : ℕ
  pub cs6 : ℕ
  pub cs7 : ℕ
  pub cs8 : ℕ
  pub parenb : ℕ
  pub parodd : ℕ
  pub cstopb : ℕ
  pub crtscts : ℕ
  pub ixon : ℕ
  pub ixoff : ℕ
  pub ixany : ℕ

pub data DataBits : Type 0 where
  five six seven eight : DataBits

pub data Parity : Type 0 where
  no_parity even odd mark space : Parity

pub data StopBits : Type 0 where
  one one_point_five two : StopBits

pub data FlowControl : Type 0 where
  no_flow_control hardware software : FlowControl

-- `SerialConfig`, with the fields of `Config` that the transport reads. Durations are numbers of
-- milliseconds, those below zero taken for zero.
pub record SerialConfig : Type 0 where
  pub protocol : Protocol
  pub direction : Direction
  pub non_blocking : Bool
  pub spawn_receive_thread : Bool
  pub receive_thread_sleep : ℕ
  pub device : List ℕ
  pub baud_rate : ℕ
  pub data_bits : DataBits
  pub parity : Parity
  pub stop_bits : StopBits
  pub flow_control : FlowControl
  pub read_timeout : ℕ
  pub rx_buffer_size : ℕ

pub record SerialPort (K : Type 0) : Type 0 where
  pub config : SerialConfig
  pub link : Link
  pub file_descriptor : Option ℕ
  pub locked : Bool
  pub kernel : K

module _ {K : Type 0} where
  unfoldable pub new_serial_port : SerialConfig → K → SerialPort K
  new_serial_port config kernel = record {
    config = config;
    link = new_link;
    file_descriptor = none;
    locked = false;
    kernel = kernel;
  }

  unfoldable pub report_error : ErrorCode → SerialPort K → SerialPort K
  report_error code p = record p { link = Link.report_error code p.link }

  unfoldable pub record_send : ℕ → SerialPort K → SerialPort K
  record_send bytes p = record p { link = Link.record_send bytes p.link }

  unfoldable pub record_receive : ℕ → SerialPort K → SerialPort K
  record_receive bytes p = record p { link = Link.record_receive bytes p.link }

  unfoldable pub set_healthy : Bool → SerialPort K → SerialPort K
  set_healthy healthy p = record p { link = record p.link { healthy = healthy } }

  abbrev pub has_file : SerialPort K → Bool
  has_file p = elim p.file_descriptor [ none ↦ false | some fd ↦ true ]

  abbrev pub unlock : SerialPort K → SerialPort K
  unlock p = record p { locked = false }
