-- ===== src/SocketCan/Defs.antt =====
-- The state of a SocketCAN object. A descriptor of -1 is `none`.
use com_lib.Transport.{Protocol, Direction, ErrorCode}
use com_lib.Transport.Link
use com_lib.Transport.Link.{Link, new_link}
use com_lib.Prelude.{ℕ, Bool, true, false, List, Option, none, some, if◌then◌else◌}

-- `CANFilter`
pub record CanFilter : Type 0 where
  pub id : ℕ
  pub mask : ℕ

-- `SocketCANConfig`, with the fields of `Config` that the transport reads. Time-outs are numbers of
-- milliseconds, those below zero taken for zero.
pub record SocketCanConfig : Type 0 where
  pub protocol : Protocol
  pub direction : Direction
  pub spawn_receive_thread : Bool
  pub receive_thread_sleep : ℕ
  pub receive_timeout : ℕ
  pub send_timeout : ℕ
  pub interface : List ℕ
  pub enable_fd : Bool
  pub loopback : Bool
  pub receive_own_messages : Bool
  pub filters : List CanFilter

-- `CANFrame`
pub record CanFrame : Type 0 where
  pub id : ℕ
  pub extended : Bool
  pub fd_frame : Bool
  pub error_frame : Bool
  pub dlc : ℕ
  pub bytes : List ℕ

pub record SocketCan (K : Type 0) : Type 0 where
  pub config : SocketCanConfig
  pub link : Link
  pub socket : Option ℕ
  pub kernel : K

-- CAN_MAX_DLEN and CANFD_MAX_DLEN of linux/can.h.
abbrev pub can_max_dlen : ℕ
can_max_dlen = 8

abbrev pub canfd_max_dlen : ℕ
canfd_max_dlen = 64

abbrev pub payload_limit : Bool → ℕ
payload_limit enable_fd = if enable_fd then canfd_max_dlen else can_max_dlen

module _ {K : Type 0} where
  unfoldable pub new_socket_can : SocketCanConfig → K → SocketCan K
  new_socket_can config kernel = record {
    config = config;
    link = new_link;
    socket = none;
    kernel = kernel;
  }

  unfoldable pub report_error : ErrorCode → SocketCan K → SocketCan K
  report_error code p = record p { link = Link.report_error code p.link }

  unfoldable pub record_send : ℕ → SocketCan K → SocketCan K
  record_send bytes p = record p { link = Link.record_send bytes p.link }

  unfoldable pub record_receive : ℕ → SocketCan K → SocketCan K
  record_receive bytes p = record p { link = Link.record_receive bytes p.link }

  unfoldable pub set_healthy : Bool → SocketCan K → SocketCan K
  set_healthy healthy p = record p { link = record p.link { healthy = healthy } }

  unfoldable pub start_receive_loop : SocketCan K → SocketCan K
  start_receive_loop p = record p { link = Link.launch p.link }

  unfoldable pub stop_receive_loop : SocketCan K → SocketCan K
  stop_receive_loop p = record p { link = Link.halt p.link }

  abbrev pub is_open : SocketCan K → Bool
  is_open p = elim p.socket [ none ↦ false | some fd ↦ true ]
