-- ===== src/Pcan/Defs.antt =====
-- The state of a PCANBasic object and its small helpers.
-- The PCAN-Basic library is a parameter, a record of its calls on a device state `D`; its status codes
-- and constants are fields. A failed assertion calls `defaultAssertionFailed`, which never returns: a
-- function that may do so gives an option, `none` for the endless loop. Each call is one step: the
-- mutexes are left out, and a receive thread is the flag that says whether one is running.
use com_lib.Mixin
use com_lib.Mixin.{Safety}
use com_lib.Transport.{
  Protocol, Direction, ErrorCode, Statistics, is_receive_enabled, count_sent, count_received,
  count_error, effective_sleep,
}
use com_lib.Prelude.{
  ℕ, Bool, true, false, ◌&&◌, ◌||◌, not, List, ◌∷◌, Option, none, ltb, leb, ◌==◌, if◌then◌else◌,
}

-- A CAN message as the library takes and gives it: `LEN` or `DLC`, and the array `DATA`.
pub record Message : Type 0 where
  pub id : ℕ
  pub length : ℕ
  pub msgtype : ℕ
  pub bytes : List ℕ

-- PCANBasic.h. A call returns a status, and leaves the device in a new state.
pub record Driver (D : Type 0) : Type 0 where
  pub error_ok : ℕ
  pub error_qrcvempty : ℕ
  pub error_busoff : ℕ
  pub error_busheavy : ℕ
  pub error_anybuserr : ℕ
  pub message_standard : ℕ
  pub listen_only_param : ℕ
  pub mode_listen_only : ℕ
  pub timestamps_param : ℕ
  pub parameter_on : ℕ
  pub can_initialize : ℕ → ℕ → D → ℕ × D
  pub can_initialize_fd : ℕ → List ℕ → D → ℕ × D
  pub can_uninitialize : ℕ → D → D
  pub can_set_value : ℕ → ℕ → ℕ → D → ℕ × D
  pub can_write : ℕ → Message → D → ℕ × D
  pub can_write_fd : ℕ → Message → D → ℕ × D
  pub can_read : ℕ → D → ℕ × Message × D
  pub can_read_fd : ℕ → D → ℕ × Message × D

-- `PCANBasicConfig`, with the fields of `Config` that the transport reads.
pub record PcanBasicConfig : Type 0 where
  pub protocol : Protocol
  pub direction : Direction
  pub auto_reconnect : Bool
  pub spawn_receive_thread : Bool
  pub receive_thread_sleep : ℕ
  pub handle : ℕ
  pub bitrate : ℕ
  pub enable_fd : Bool
  pub fd_bitrate : List ℕ
  pub listen_only : Bool
  pub hardware_timestamps : Bool

-- `running` says that the receive thread is told to run, `joinable` that `receiveThread_` holds one.
-- `error_calls` are the calls of the error callback, the last one first.
pub record PcanBasic (D : Type 0) : Type 0 where
  pub config : PcanBasicConfig
  pub stats : Statistics
  pub has_receive_callback : Bool
  pub has_error_callback : Bool
  pub healthy : Bool
  pub running : Bool
  pub joinable : Bool
  pub initialized : Bool
  pub safety : Safety
  pub error_calls : List ErrorCode
  pub device : D

abbrev pub can_max_payload : ℕ
can_max_payload = 8

abbrev pub can_fd_max_payload : ℕ
can_fd_max_payload = 64

abbrev pub max_recovery_attempts : ℕ
max_recovery_attempts = 3

abbrev pub max_receive_loop_iterations : ℕ
max_receive_loop_iterations = 1000

abbrev pub get_payload_limit : Bool → ℕ
get_payload_limit is_fd = if is_fd then can_fd_max_payload else can_max_payload

unfoldable pub is_valid_can_payload : ℕ → Bool → Bool
is_valid_can_payload size is_fd = ltb 0 size && leb size (get_payload_limit is_fd)

unfoldable pub is_valid_handle : ℕ → Bool
is_valid_handle handle =
    (leb 0x51 handle && leb handle 0x58)
    || ((leb 0x41 handle && leb handle 0x48) || (handle == 0xFFFF))

-- `assertCheck` in front of the rest of a function.
abbrev pub assert {ℓ} : {A : Type ℓ} → Bool → Option A → Option A
assert true rest = rest
assert false rest = none

module _ {D : Type 0} where
  unfoldable pub report_error : ErrorCode → PcanBasic D → PcanBasic D
  report_error code p = record p {
    stats = count_error p.stats;
    healthy = false;
    error_calls = if p.has_error_callback then code ∷ p.error_calls else p.error_calls;
  }

  unfoldable pub record_send : ℕ → PcanBasic D → PcanBasic D
  record_send bytes p = record p { stats = count_sent bytes p.stats }

  unfoldable pub record_receive : ℕ → PcanBasic D → PcanBasic D
  record_receive bytes p = record p { stats = count_received bytes p.stats }

  unfoldable pub record_success : PcanBasic D → ℕ → PcanBasic D
  record_success p now = record p { safety = Mixin.record_success p.safety now }

  unfoldable pub record_failure : PcanBasic D → PcanBasic D
  record_failure p = record p { safety = Mixin.record_failure p.safety }

  abbrev pub is_open : PcanBasic D → Bool
  is_open p = p.initialized

  unfoldable pub should_spawn_receive_thread : PcanBasic D → Bool
  should_spawn_receive_thread p =
      p.config.spawn_receive_thread && (p.initialized && is_receive_enabled p.config.direction)

  unfoldable pub start_receive_thread : PcanBasic D → PcanBasic D
  unfolding should_spawn_receive_thread
  start_receive_thread p =
      if not (should_spawn_receive_thread p) || not p.has_receive_callback
      then p
      else if p.running
      then p
      else record p { running = true; joinable = true }

  unfoldable pub stop_receive_thread : PcanBasic D → PcanBasic D
  stop_receive_thread p =
      if not p.running then p else record p { running = false; joinable = false }

  pub receive_sleep_duration : PcanBasic D → ℕ
  receive_sleep_duration p = effective_sleep p.config.receive_thread_sleep

  unfoldable pub set_receive_callback : PcanBasic D → Bool → PcanBasic D
  unfolding start_receive_thread
  set_receive_callback p present =
      let p' = record p { has_receive_callback = present } in
      if (p'.initialized
          && (p'.config.spawn_receive_thread && is_receive_enabled p'.config.direction))
        && p'.has_receive_callback
      then start_receive_thread p'
      else p'

  unfoldable pub set_error_callback : PcanBasic D → Bool → PcanBasic D
  set_error_callback p present = record p { has_error_callback = present }
