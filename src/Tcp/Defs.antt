-- ===== src/Tcp/Defs.antt =====
-- The state of a TCP object. A descriptor of -1 is `none`. The time of the last activity, which no
-- operation reads, is left out.
use com_lib.Posix.Endpoint.{Endpoint}
use com_lib.Transport.{Protocol, Direction, Role, ErrorCode}
use com_lib.Transport.Link
use com_lib.Transport.Link.{Link, new_link}
use com_lib.Prelude.{ℕ, Bool, true, false, Option, none, some}

-- `TCPConfig`, with the fields of `Config` that the transport reads. Time-outs are numbers of
-- milliseconds, those below zero taken for zero.
pub record TcpConfig : Type 0 where
  pub protocol : Protocol
  pub direction : Direction
  pub role : Role
  pub non_blocking : Bool
  pub auto_reconnect : Bool
  pub spawn_receive_thread : Bool
  pub receive_thread_sleep : ℕ
  pub receive_timeout : ℕ
  pub send_timeout : ℕ
  pub local : Endpoint
  pub remote : Endpoint
  pub reuse_address : Bool
  pub no_delay : Bool
  pub keep_alive : Bool
  pub listen_backlog : ℕ

-- `SocketHandle`
pub record SocketHandle : Type 0 where
  pub socket : Option ℕ
  pub listen : Option ℕ
  pub server : Bool

pub record Tcp (K : Type 0) : Type 0 where
  pub config : TcpConfig
  pub link : Link
  pub handle : Option SocketHandle
  pub kernel : K

abbrev pub is_server : Role → Bool
is_server Role.server = true
is_server _ = false

abbrev pub is_some {ℓ} : {A : Type ℓ} → Option A → Bool
is_some none = false
is_some (some a) = true

module _ {K : Type 0} where
  unfoldable pub new_tcp : TcpConfig → K → Tcp K
  new_tcp config kernel = record {
    config = config;
    link = new_link;
    handle = none;
    kernel = kernel;
  }

  unfoldable pub report_error : ErrorCode → Tcp K → Tcp K
  report_error code p = record p { link = Link.report_error code p.link }

  unfoldable pub record_send : ℕ → Tcp K → Tcp K
  record_send bytes p = record p { link = Link.record_send bytes p.link }

  unfoldable pub record_receive : ℕ → Tcp K → Tcp K
  record_receive bytes p = record p { link = Link.record_receive bytes p.link }

  unfoldable pub set_healthy : Bool → Tcp K → Tcp K
  set_healthy healthy p = record p { link = record p.link { healthy = healthy } }

  abbrev pub is_open : Tcp K → Bool
  is_open p = is_some p.handle
