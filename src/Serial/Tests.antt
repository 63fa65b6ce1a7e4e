-- ===== src/Serial/Tests.antt =====
-- The theorems on the serial port with a terminal that takes every setting.
use com_lib.Posix.{done}
use com_lib.Transport.{serial, two_way}
use com_lib.Transport.Link.{error_result}
use com_lib.Posix.Sample.{Kernel, new_kernel, sample}
use com_lib.Interface.{IsAccounted}
use com_lib.Interface.Transports.{transports-IsAccounted, transports-Accounts}
use com_lib.Interface.Accounts
use com_lib.Interface.Accounts.{Call, Accounts, AllFit, perform}
use com_lib.Defaults.Configs.{default_socket_can_config, default_udp_config}
use com_lib.SocketCan.Defs.{SocketCan, new_socket_can}
use com_lib.Udp.Defs.{Udp, new_udp}
use com_lib.SocketCan.Transfer.{send as can_send, receive as can_receive}
use com_lib.Udp.Transfer.{send as udp_send, receive as udp_receive}
use com_lib.SocketCan.Contract.{socket_can}
use com_lib.Udp.Contract.{udp}
use com_lib.Serial.Contract.{serial_port}
use com_lib.Serial.Defs.{
  Termios, Tty, eight, Parity, no_parity, mark, one, no_flow_control, SerialConfig, SerialPort,
  new_serial_port,
}
use com_lib.Serial.Settings.{apply_settings}
use com_lib.Serial.Port.{drop_file, open_port, send, receive}
use com_lib.Serial.Steps.{opening, start, followed, Steps_never_open}
use com_lib.Prelude.{ℕ, ◌+◌, true, false, List, [], ◌∷◌, none, some, length, take, ◌≡◌, refl, arith}

abbrev blank : Termios
blank = record { cflag = 0; iflag = 0; input_speed = 0; output_speed = 0; vmin = 1; vtime = 0 }

-- The state is the number of files opened and closed.
abbrev terminal : Tty ℕ
terminal = record {
  open_file = λ name non_blocking k. (done 3, k + 1);
  close_fd = λ fd k. k + 1;
  get_attributes = λ fd k. (done blank, k);
  make_raw = λ t. t;
  set_attributes = λ fd t k. (done tt, k);
  flush = λ fd k. k;
  write = λ fd bytes k. (done (length bytes), k);
  read = λ fd size k. (done (take size (1 ∷ 2 ∷ [])), k);
  b9600 = 0xD;
  b19200 = 0xE;
  b38400 = 0xF;
  b57600 = 0x1001;
  b115200 = 0x1002;
  b230400 = 0x1003;
  b460800 = 0x1004;
  b921600 = 0x1007;
  csize = 0x30;
  cs5 = 0;
  cs6 = 0x10;
  cs7 = 0x20;
  cs8 = 0x30;
  parenb = 0x100;
  parodd = 0x200;
  cstopb = 0x40;
  crtscts = 0x80000000;
  ixon = 0x400;
  ixoff = 0x1000;
  ixany = 0x800;
}

abbrev with_parity_of : Parity → SerialConfig
with_parity_of parity = record {
  protocol = serial;
  direction = two_way;
  non_blocking = false;
  spawn_receive_thread = false;
  receive_thread_sleep = 0;
  device = 47 ∷ [];
  baud_rate = 115200;
  data_bits = eight;
  parity = parity;
  stop_bits = one;
  flow_control = no_flow_control;
  read_timeout = 1000;
  rx_buffer_size = 1024;
}

abbrev port : Parity → SerialPort ℕ
port parity = new_serial_port (with_parity_of parity) 0

abbrev held : Parity → SerialPort ℕ
held parity = record (port parity) { locked = true; file_descriptor = some 3; kernel = 1 }

-- Without parity the settings are applied, with mark parity refused.
applied_without_parity : (apply_settings terminal (held no_parity)).0 ≡ true
unfolding new_serial_port apply_settings
applied_without_parity = refl

refused_with_mark : (apply_settings terminal (held mark)).0 ≡ false
unfolding new_serial_port apply_settings
refused_with_mark = refl

-- A port whose `open` was refused, with its parity then.
abbrev refused : SerialPort ℕ
refused = record (drop_file terminal (apply_settings terminal (held mark)).1) { locked = false }

refused_by_open : open_port terminal (port mark) ≡ some (false, refused)
unfolding new_serial_port open_port
refused_by_open = refl

Steps_never_open_example :
    (refused.file_descriptor ≡ none)
    × ((send terminal refused (1 ∷ [])).0 ≡ error_result)
    × ((receive terminal refused [] 4).0 ≡ error_result)
Steps_never_open_example = Steps_never_open terminal (with_parity_of mark) 0 refused (1 ∷ []) [] 4 (
    followed (port mark) (port mark) refused (start (port mark))
      (opening (port mark) false refused refused_by_open))

transports-IsAccounted_example :
    IsAccounted (socket_can sample) × IsAccounted (udp sample) × IsAccounted (serial_port terminal)
transports-IsAccounted_example = transports-IsAccounted sample terminal

abbrev client_calls : List Call
client_calls =
    Call.sending (1 ∷ 2 ∷ []) ∷ Call.receiving [] 5 ∷ Call.sending [] ∷ Call.sending (7 ∷ []) ∷ []

abbrev a_can : SocketCan Kernel
a_can =
    record (new_socket_can (record default_socket_can_config { direction = two_way }) new_kernel) {
      socket = some 3;
    }

abbrev a_udp : Udp Kernel
a_udp = record (new_udp (record default_udp_config { direction = two_way }) new_kernel) {
  handle = some (record { socket = 3; local = none });
}

abbrev a_port : SerialPort ℕ
a_port = record (port no_parity) { file_descriptor = some 3 }

can-AllFit : AllFit (socket_can sample) client_calls a_can
unfolding perform can_send can_receive new_socket_can com_lib.SocketCan.Defs.record_send
    com_lib.SocketCan.Defs.record_receive com_lib.SocketCan.Defs.set_healthy
    com_lib.SocketCan.Defs.report_error com_lib.SocketCan.Transfer.payload_frame
can-AllFit = omega arith

udp-AllFit : AllFit (udp sample) client_calls a_udp
unfolding perform udp_send udp_receive new_udp com_lib.Udp.Defs.record_send
    com_lib.Udp.Defs.set_healthy com_lib.Udp.Defs.record_receive com_lib.Udp.Defs.report_error
udp-AllFit = omega arith

port-AllFit : AllFit (serial_port terminal) client_calls a_port
unfolding perform send receive new_serial_port com_lib.Serial.Defs.record_send
    com_lib.Serial.Defs.set_healthy com_lib.Serial.Defs.record_receive
port-AllFit = omega arith

transports-Accounts_example :
    let (totals, a) = Accounts.run (socket_can sample) client_calls a_can in
    let (totals', b) = Accounts.run (udp sample) client_calls a_udp in
    let (totals'', c) = Accounts.run (serial_port terminal) client_calls a_port in
    Accounts a_can.link.stats totals a.link.stats
    × Accounts a_udp.link.stats totals' b.link.stats
    × Accounts a_port.link.stats totals'' c.link.stats
unfolding new_socket_can new_udp new_serial_port
transports-Accounts_example =
    transports-Accounts sample terminal client_calls a_can a_udp a_port can-AllFit udp-AllFit
      port-AllFit (omega arith) (omega arith) (omega arith)
