-- ===== src/Defaults/Configs.antt =====
-- The configurations that a transport has when its constructor is given none.
use com_lib.Posix.Endpoint.{Endpoint}
use com_lib.Transport.{Protocol, Direction, Role}
use com_lib.SocketCan.Defs.{SocketCanConfig}
use com_lib.Pcan.Defs.{PcanBasicConfig}
use com_lib.Tcp.Defs.{TcpConfig}
use com_lib.Udp.Defs.{UdpConfig}
use com_lib.Serial.Defs.{SerialConfig, eight, no_parity, one, no_flow_control}
use com_lib.Defaults.{
  Config, default_config, serial_baud_rate, serial_read_timeout, serial_rx_buffer_size,
  multicast_ttl, tcp_listen_backlog, pcan_baud_500k,
}
use com_lib.Prelude.Texts.{codes}
use com_lib.Prelude.{ℕ, true, false, []}

-- `PCANChannel::Usb1`
abbrev pub usb1 : ℕ
usb1 = 0x51

-- `Endpoint{}`
abbrev pub no_endpoint : Endpoint
no_endpoint = record { address = []; port = 0 }

-- What the constructors of the configurations set in `Config`.
abbrev tcp_base : Config
tcp_base = record default_config {
  protocol = Protocol.tcp;
  role = Role.client;
  direction = Direction.two_way;
}

abbrev udp_base : Config
udp_base = record default_config { protocol = Protocol.udp }

abbrev can_base : Config
can_base = record default_config {
  protocol = Protocol.can;
  direction = Direction.two_way;
  auto_reconnect = true;
}

abbrev serial_base : Config
serial_base = record default_config { protocol = Protocol.serial; direction = Direction.two_way }

abbrev pub default_tcp_config : TcpConfig
default_tcp_config = record {
  protocol = tcp_base.protocol;
  direction = tcp_base.direction;
  role = tcp_base.role;
  non_blocking = tcp_base.non_blocking;
  auto_reconnect = tcp_base.auto_reconnect;
  spawn_receive_thread = tcp_base.spawn_receive_thread;
  receive_thread_sleep = tcp_base.receive_thread_sleep;
  receive_timeout = tcp_base.timeouts.receive_timeout;
  send_timeout = tcp_base.timeouts.send_timeout;
  local = no_endpoint;
  remote = no_endpoint;
  reuse_address = true;
  no_delay = true;
  keep_alive = false;
  listen_backlog = tcp_listen_backlog;
}

abbrev pub default_udp_config : UdpConfig
default_udp_config = record {
  protocol = udp_base.protocol;
  mode = udp_base.mode;
  direction = udp_base.direction;
  non_blocking = udp_base.non_blocking;
  spawn_receive_thread = udp_base.spawn_receive_thread;
  receive_thread_sleep = udp_base.receive_thread_sleep;
  receive_timeout = udp_base.timeouts.receive_timeout;
  send_timeout = udp_base.timeouts.send_timeout;
  reconnect_interval = udp_base.timeouts.reconnect_interval;
  local = no_endpoint;
  remote = no_endpoint;
  allow_broadcast = false;
  join_multicast = false;
  multicast_group = [];
  multicast_ttl = multicast_ttl;
  multicast_loopback = false;
  auto_rebind = true;
}

abbrev pub default_socket_can_config : SocketCanConfig
default_socket_can_config = record {
  protocol = can_base.protocol;
  direction = can_base.direction;
  spawn_receive_thread = can_base.spawn_receive_thread;
  receive_thread_sleep = can_base.receive_thread_sleep;
  receive_timeout = can_base.timeouts.receive_timeout;
  send_timeout = can_base.timeouts.send_timeout;
  interface = codes "can0";
  enable_fd = false;
  loopback = false;
  receive_own_messages = false;
  filters = [];
}

abbrev pub default_pcan_basic_config : PcanBasicConfig
default_pcan_basic_config = record {
  protocol = can_base.protocol;
  direction = can_base.direction;
  auto_reconnect = can_base.auto_reconnect;
  spawn_receive_thread = can_base.spawn_receive_thread;
  receive_thread_sleep = can_base.receive_thread_sleep;
  handle = usb1;
  bitrate = pcan_baud_500k;
  enable_fd = false;
  fd_bitrate =
      codes
        "f_clock=80000000, nom_brp=1, nom_tseg1=63, nom_tseg2=16, nom_sjw=16, data_brp=1, data_tseg1=15, data_tseg2=4, data_sjw=4";
  listen_only = false;
  hardware_timestamps = false;
}

abbrev pub default_serial_config : SerialConfig
default_serial_config = record {
  protocol = serial_base.protocol;
  direction = serial_base.direction;
  non_blocking = serial_base.non_blocking;
  spawn_receive_thread = serial_base.spawn_receive_thread;
  receive_thread_sleep = serial_base.receive_thread_sleep;
  device = codes "/dev/ttyUSB0";
  baud_rate = serial_baud_rate;
  data_bits = eight;
  parity = no_parity;
  stop_bits = one;
  flow_control = no_flow_control;
  read_timeout = serial_read_timeout;
  rx_buffer_size = serial_rx_buffer_size;
}
