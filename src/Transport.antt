-- ===== src/Transport.antt =====
-- What the transports share: include/comm/core/config.hpp, error.hpp, utils.hpp and callback.hpp.
-- The messages and time stamps of an error are left out, and of the configuration the fields that no
-- modelled operation reads. Durations are numbers of milliseconds.
pub mod Counters
pub mod Errors
pub mod Link
use com_lib.Prelude.{ℕ, ◌+◌, ◌-◌, ◌≤◌, Bool, true, false, ◌||◌, List, [], ◌∷◌, ltb, if◌then◌else◌}

-- `Protocol`
pub data Protocol : Type 0 where
  unknown udp tcp serial can : Protocol

-- `Direction`
pub data Direction : Type 0 where
  unspecified send_only receive_only two_way : Direction

-- `Mode`
pub data Mode : Type 0 where
  unspecified unicast broadcast multicast : Mode

-- `Role`
pub data Role : Type 0 where
  undefined client server : Role

abbrev pub is_receive_enabled : Direction → Bool
is_receive_enabled receive_only = true
is_receive_enabled two_way = true
is_receive_enabled _ = false

abbrev pub is_send_enabled : Direction → Bool
is_send_enabled send_only = true
is_send_enabled two_way = true
is_send_enabled _ = false

abbrev pub default_receive_sleep : ℕ
default_receive_sleep = 5

pub effective_sleep : ℕ → ℕ
effective_sleep requested = if ltb 0 requested then requested else default_receive_sleep

-- `ErrorCode`
pub data ErrorCode : Type 0 where
  no_error invalid_configuration already_open not_open open_failed close_failed send_failed :
      ErrorCode
  receive_failed timed_out connection_lost resource_unavailable unsupported_operation : ErrorCode
  permission_denied unknown_error : ErrorCode

-- `isRetryable`, which reads only the code.
pub is_retryable : ErrorCode → Bool
is_retryable timed_out = true
is_retryable connection_lost = true
is_retryable resource_unavailable = true
is_retryable _ = false

abbrev pub max_u64 : ℕ
max_u64 = 0xFFFFFFFFFFFFFFFF

pub saturating_add : ℕ → ℕ → ℕ
saturating_add a b = if ltb (max_u64 - b) a then max_u64 else a + b

-- `Statistics`, without the start time.
pub record Statistics : Type 0 where
  pub bytes_sent : ℕ
  pub bytes_received : ℕ
  pub messages_sent : ℕ
  pub messages_received : ℕ
  pub error_count : ℕ

abbrev pub new_statistics : Statistics
new_statistics = record {
  bytes_sent = 0;
  bytes_received = 0;
  messages_sent = 0;
  messages_received = 0;
  error_count = 0;
}

-- `recordSend`, `recordReceive` and the counting of `reportError`, the same in every transport.
unfoldable pub count_sent : ℕ → Statistics → Statistics
count_sent bytes s = record s {
  bytes_sent = saturating_add s.bytes_sent bytes;
  messages_sent = saturating_add s.messages_sent 1;
}

unfoldable pub count_received : ℕ → Statistics → Statistics
count_received bytes s = record s {
  bytes_received = saturating_add s.bytes_received bytes;
  messages_received = saturating_add s.messages_received 1;
}

unfoldable pub count_error : Statistics → Statistics
count_error s = record s { error_count = saturating_add s.error_count 1 }
