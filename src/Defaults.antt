-- ===== src/Defaults.antt =====
-- The defaults of include/comm/core/defaults.hpp that a default configuration has, and the shared part
-- `Config` of include/comm/core/config.hpp with its defaults. Durations are numbers of milliseconds, and
-- the backoff multiplier, 2.0 in the code and read nowhere, is a number. `Configs` has the default
-- configurations of the transports, `Opening` what objects with them do.
-- The other constants stand where they are used.
pub mod Configs
pub mod Opening
mod Tests
use com_lib.Transport.{Protocol, Mode, Direction, Role, default_receive_sleep}
use com_lib.Prelude.{ℕ, Bool, false}

abbrev pub open_timeout : ℕ
open_timeout = 2000

abbrev pub close_timeout : ℕ
close_timeout = 2000

abbrev pub send_timeout : ℕ
send_timeout = 1000

abbrev pub receive_timeout : ℕ
receive_timeout = 1000

abbrev pub reconnect_interval : ℕ
reconnect_interval = 5000

abbrev pub retry_base_delay : ℕ
retry_base_delay = 100

abbrev pub retry_max_delay : ℕ
retry_max_delay = 5000

abbrev pub serial_baud_rate : ℕ
serial_baud_rate = 115200

abbrev pub serial_read_timeout : ℕ
serial_read_timeout = 500

abbrev pub serial_rx_buffer_size : ℕ
serial_rx_buffer_size = 4096

abbrev pub multicast_ttl : ℕ
multicast_ttl = 1

abbrev pub tcp_listen_backlog : ℕ
tcp_listen_backlog = 5

abbrev pub pcan_baud_500k : ℕ
pcan_baud_500k = 0x001C

abbrev pub max_retry_attempts : ℕ
max_retry_attempts = 0

abbrev pub backoff_multiplier : ℕ
backoff_multiplier = 2

-- `TransportReliability`
pub data TransportReliability : Type 0 where
  unspecified reliable best_effort : TransportReliability

-- `LogLevel`
pub data LogLevel : Type 0 where
  trace debug info warn error critical off : LogLevel

pub record RetryPolicy : Type 0 where
  pub enabled : Bool
  pub max_attempts : ℕ
  pub base_delay : ℕ
  pub max_delay : ℕ
  pub backoff_multiplier : ℕ

pub record TimeoutSettings : Type 0 where
  pub open_timeout : ℕ
  pub close_timeout : ℕ
  pub send_timeout : ℕ
  pub receive_timeout : ℕ
  pub reconnect_interval : ℕ

-- `Config`; of `LogConfig` the level, since no transport calls the handler.
pub record Config : Type 0 where
  pub protocol : Protocol
  pub mode : Mode
  pub direction : Direction
  pub role : Role
  pub reliability : TransportReliability
  pub non_blocking : Bool
  pub auto_reconnect : Bool
  pub spawn_receive_thread : Bool
  pub receive_thread_sleep : ℕ
  pub timeouts : TimeoutSettings
  pub retry_policy : RetryPolicy
  pub log_level : LogLevel

abbrev pub default_retry_policy : RetryPolicy
default_retry_policy = record {
  enabled = false;
  max_attempts = max_retry_attempts;
  base_delay = retry_base_delay;
  max_delay = retry_max_delay;
  backoff_multiplier = backoff_multiplier;
}

abbrev pub default_timeouts : TimeoutSettings
default_timeouts = record {
  open_timeout = open_timeout;
  close_timeout = close_timeout;
  send_timeout = send_timeout;
  receive_timeout = receive_timeout;
  reconnect_interval = reconnect_interval;
}

abbrev pub default_config : Config
default_config = record {
  protocol = Protocol.unknown;
  mode = Mode.unspecified;
  direction = Direction.unspecified;
  role = Role.undefined;
  reliability = TransportReliability.unspecified;
  non_blocking = false;
  auto_reconnect = false;
  spawn_receive_thread = false;
  receive_thread_sleep = default_receive_sleep;
  timeouts = default_timeouts;
  retry_policy = default_retry_policy;
  log_level = LogLevel.info;
}
