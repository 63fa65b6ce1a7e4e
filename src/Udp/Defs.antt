-- ===== src/Udp/Defs.antt =====
-- The state of a UDP object. The time of the last activity is left out: the health monitor's round takes
-- the time that has passed since then.
use com_lib.Posix.Endpoint.{Endpoint}
use com_lib.Transport.{Protocol, Mode, Direction, ErrorCode}
use com_lib.Transport.Link
use com_lib.Transport.Link.{Link, new_link}
use com_lib.Prelude.{ℕ, Bool, true, false, List, Option, none, some}

-- `UDPConfig`, with the fields of `Config` that the transport reads. Durations are numbers of milliseconds,
-- those below zero taken for zero.
pub record UdpConfig : Type 0 where
  pub protocol : Protocol
  pub mode : Mode
  pub direction : Direction
  pub non_blocking : Bool
  pub spawn_receive_thread : Bool
  pub receive_thread_sleep : ℕ
  pub receive_timeout : ℕ
  pub send_timeout : ℕ
  pub reconnect_interval : ℕ
  pub local : Endpoint
  pub remote : Endpoint
  pub allow_broadcast : Bool
  pub join_multicast : Bool
  pub multicast_group : List ℕ
  pub multicast_ttl : ℕ
  pub multicast_loopback : Bool
  pub auto_rebind : Bool

-- `SocketHandle`: a handle is made with its socket, and holds the address and port it is bound to.
pub record UdpHandle : Type 0 where
  pub socket : ℕ
  pub local : Option (ℕ × ℕ)

pub record Udp (K : Type 0) : Type 0 where
  pub config : UdpConfig
  pub link : Link
  pub handle : Option UdpHandle
  pub monitor_running : Bool
  pub monitor_joinable : Bool
  pub kernel : K

-- `kMaxUdpDatagramSize`
abbrev pub max_udp_datagram_size : ℕ
max_udp_datagram_size = 65536

module _ {K : Type 0} where
  unfoldable pub new_udp : UdpConfig → K → Udp K
  new_udp config kernel = record {
    config = config;
    link = new_link;
    handle = none;
    monitor_running = false;
    monitor_joinable = false;
    kernel = kernel;
  }

  unfoldable pub report_error : ErrorCode → Udp K → Udp K
  report_error code p = record p { link = Link.report_error code p.link }

  unfoldable pub record_send : ℕ → Udp K → Udp K
  record_send bytes p = record p { link = Link.record_send bytes p.link }

  unfoldable pub record_receive : ℕ → Udp K → Udp K
  record_receive bytes p = record p { link = Link.record_receive bytes p.link }

  unfoldable pub set_healthy : Bool → Udp K → Udp K
  set_healthy healthy p = record p { link = record p.link { healthy = healthy } }

  abbrev pub is_open : Udp K → Bool
  is_open p = elim p.handle [ none ↦ false | some h ↦ true ]
