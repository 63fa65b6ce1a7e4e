-- ===== src/Pcan/Tests.antt =====
-- The theorems on PCANBasic with a concrete driver, whose state counts its calls.
use com_lib.Mixin.{new_safety}
use com_lib.Transport.{can, two_way, new_statistics}
use com_lib.Pcan.Defs.{Message, Driver, PcanBasicConfig, PcanBasic, is_valid_handle}
use com_lib.Pcan.Lifecycle.{
  start_device, apply_mode, open_device, close, destroy, recover_if_needed,
}
use com_lib.Pcan.Lifecycle.Laws.{Attempted, Closed, Destroyed, lifecycle_returns}
use com_lib.Pcan.Lifecycle.Recovery.{
  open_device_mode_failure, Recovered, recover_if_needed-Recovered, recover_if_needed_halts,
  started, released,
}
use com_lib.Pcan.Transfer.{send, receive, read_frame}
use com_lib.Pcan.Transfer.Laws.{Sent, send-Sent}
use com_lib.Pcan.Transfer.Intake.{Received, taken_size, receive-Received}
use com_lib.Pcan.Monitor.{new_pcan_basic}
use com_lib.Pcan.Monitor.Calls.{
  Call, opens, closes, configures, sets_receive_callback, sends, receives, AllSound, run,
  run_new-AllSound,
}
use com_lib.Watchdog
use com_lib.Pcan.Unsupported
use com_lib.Pcan.Unsupported.NoOp.{IsIdle, run_new-IsIdle}
use com_lib.Prelude.{
  ℕ, ◌+◌, Bool, true, false, List, [], ◌∷◌, none, some, ◌≡◌, ◌≤◌, length, refl, arith,
}

abbrev a_frame : Message
a_frame = record {
  id = 0x123;
  length = 3;
  msgtype = 0;
  bytes = 10 ∷ 20 ∷ 30 ∷ 0 ∷ 0 ∷ 0 ∷ 0 ∷ 0 ∷ [];
}

-- Every call succeeds; a set mode gives this status.
abbrev driver : ℕ → Driver ℕ
driver mode_status = record {
  error_ok = 0;
  error_qrcvempty = 0x20;
  error_busoff = 0x10;
  error_busheavy = 0x8;
  error_anybuserr = 0x4001C;
  message_standard = 0;
  listen_only_param = 8;
  mode_listen_only = 1;
  timestamps_param = 4;
  parameter_on = 1;
  can_initialize = λ handle bitrate d. (0, d + 1);
  can_initialize_fd = λ handle bitrate d. (0, d + 1);
  can_uninitialize = λ handle d. d + 1;
  can_set_value = λ handle param value d. (mode_status, d + 1);
  can_write = λ handle message d. (0, d + 1);
  can_write_fd = λ handle message d. (0, d + 1);
  can_read = λ handle d. (0, a_frame, d + 1);
  can_read_fd = λ handle d. (0, a_frame, d + 1);
}

abbrev plain : PcanBasicConfig
plain = record {
  protocol = can;
  direction = two_way;
  auto_reconnect = true;
  spawn_receive_thread = true;
  receive_thread_sleep = 0;
  handle = 0x51;
  bitrate = 0x1C;
  enable_fd = false;
  fd_bitrate = [];
  listen_only = false;
  hardware_timestamps = false;
}

abbrev listening : PcanBasicConfig
listening = record plain { listen_only = true }

abbrev device : PcanBasicConfig → Bool → PcanBasic ℕ
device config opened = record {
  config = config;
  stats = new_statistics;
  has_receive_callback = true;
  has_error_callback = true;
  healthy = true;
  running = opened;
  joinable = opened;
  initialized = opened;
  safety = new_safety 1000 0;
  error_calls = [];
  device = 0;
}

start_ok : (start_device (driver 7) (device listening false)).0 ≡ 0
unfolding start_device
start_ok = refl

mode_failed : (apply_mode (driver 7) (started (driver 7) (device listening false))).0 ≡ false
unfolding apply_mode start_device
mode_failed = refl

start_again_ok : (start_device (driver 7) (released (driver 7) (device listening true))).0 ≡ 0
unfolding start_device
start_again_ok = refl

mode_failed_again :
    (apply_mode (driver 7) (started (driver 7) (released (driver 7) (device listening true)))).0
    ≡ false
unfolding apply_mode start_device
mode_failed_again = refl

read_ok : (read_frame (driver 0) (device plain true)).0 ≡ 0
unfolding read_frame
read_ok = refl

read_long :
    taken_size false 2 (read_frame (driver 0) (device plain true)).1
    ≤ length (read_frame (driver 0) (device plain true)).1.bytes
unfolding read_frame
read_long = omega arith

lifecycle_returns_example :
    Attempted (driver 0) (device plain false) (open_device (driver 0) (device plain false))
    × Closed (driver 0) (device plain true) (close (driver 0) (device plain true))
    × Destroyed (driver 0) (device plain true) (destroy (driver 0) (device plain true))
lifecycle_returns_example =
    lifecycle_returns (driver 0) (device plain false) (device plain true) refl

open_device_mode_failure_example :
    (p' : PcanBasic ℕ) × (open_device (driver 7) (device listening false) ≡ some (false, p'))
    × (p'.initialized ≡ true)
    × (open_device (driver 7) p' ≡ some (true, p'))
open_device_mode_failure_example =
    open_device_mode_failure (driver 7) (device listening false) refl start_ok mode_failed

recover_if_needed-Recovered_example :
    Recovered
      (driver 0)
      (device plain true)
      0x10
      (recover_if_needed (driver 0) (device plain true) 0x10)
recover_if_needed-Recovered_example =
    recover_if_needed-Recovered (driver 0) (device plain true) 0x10 refl refl refl

recover_if_needed_halts_example : recover_if_needed (driver 7) (device listening true) 0x10 ≡ none
recover_if_needed_halts_example =
    recover_if_needed_halts (driver 7) (device listening true) 0x10 refl refl refl start_again_ok
      mode_failed_again

send-Sent_example :
    Sent
      (driver 0)
      (device plain true)
      (1 ∷ 2 ∷ 3 ∷ 4 ∷ 5 ∷ 6 ∷ 7 ∷ 8 ∷ 9 ∷ [])
      50
      (send (driver 0) (device plain true) (1 ∷ 2 ∷ 3 ∷ 4 ∷ 5 ∷ 6 ∷ 7 ∷ 8 ∷ 9 ∷ []) 50)
send-Sent_example =
    send-Sent (driver 0) (device plain true) 1 (2 ∷ 3 ∷ 4 ∷ 5 ∷ 6 ∷ 7 ∷ 8 ∷ 9 ∷ []) 50 refl refl
      refl

receive-Received_example :
    Received (driver 0) (device plain true) 2 60 (receive (driver 0) (device plain true) [] 2 60)
receive-Received_example =
    receive-Received (driver 0) (device plain true) [] 2 60 refl refl (omega arith) read_ok
      (λ e. ground (arith, e)) read_long

abbrev calls : List (ℕ × Call)
calls =
    (1, sets_receive_callback true)
    ∷ (2, opens)
    ∷ (3, sends (1 ∷ 2 ∷ []))
    ∷ (4, receives 8)
    ∷ (5, configures listening)
    ∷ (6, closes)
    ∷ []

run_new-AllSound_example : AllSound (driver 0) (run (driver 0) (new_pcan_basic plain 0 0) calls)
run_new-AllSound_example = run_new-AllSound (driver 0) plain 0 0 calls

abbrev fresh : PcanBasic ℕ
fresh = record {
  config = plain;
  stats = new_statistics;
  has_receive_callback = false;
  has_error_callback = false;
  healthy = true;
  running = false;
  joinable = false;
  initialized = false;
  safety = new_safety Watchdog.default_timeout 0;
  error_calls = [];
  device = 0;
}

abbrev no_op_calls : List Unsupported.Call
no_op_calls =
    Unsupported.setting_error_callback true
    ∷ Unsupported.opening
    ∷ Unsupported.sending (1 ∷ [])
    ∷ Unsupported.configuring listening
    ∷ Unsupported.feeding 5
    ∷ Unsupported.checking 7
    ∷ Unsupported.closing
    ∷ []

run_new-IsIdle_example :
    IsIdle (Unsupported.reports no_op_calls) 0 (Unsupported.run no_op_calls fresh)
unfolding new_pcan_basic is_valid_handle
run_new-IsIdle_example = run_new-IsIdle {D = ℕ} plain 0 0 no_op_calls {p = fresh} refl
