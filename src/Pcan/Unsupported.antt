-- ===== src/Pcan/Unsupported.antt =====
-- PCANBasic built without COMM_HAS_PCAN: the branches of src/can/pcan_basic.cpp that stand in for the
-- library, with the calls that are the same in both builds. No driver is there.
pub mod NoOp
use com_lib.Transport.{
  ErrorCode, unsupported_operation, Statistics, new_statistics, max_u64, saturating_add,
  count_error,
}
use com_lib.Transport.Counters.{saturating_add_lem}
use com_lib.Transport.Link.{error_result}
use com_lib.Pcan.Defs.{
  PcanBasicConfig, PcanBasic, is_valid_handle, report_error, should_spawn_receive_thread,
  start_receive_thread, stop_receive_thread, set_receive_callback, set_error_callback,
}
use com_lib.Pcan.Lifecycle.{is_can}
use com_lib.Pcan.Monitor.{
  new_pcan_basic, feed_watchdog, check_watchdog, get_next_sequence, validate_sequence,
}
use com_lib.Prelude.Int.{ℤ}
use com_lib.Prelude.{
  ℕ, ◌+◌, ◌≤◌, min, Bool, true, false, ◌&&◌, not, List, [], ◌∷◌, Option, none, some, if◌then◌else◌,
  Bool-cases, inl, inr, ◌≡◌, ◌∙◌, ap, refl, arith,
}

-- The calls of a client; the flags say whether the callback is set or empty.
pub data Call : Type 0 where
  opening closing : Call
  sending : List ℕ → Call
  receiving : List ℕ → ℕ → Call
  configuring : PcanBasicConfig → Call
  setting_receive_callback setting_error_callback : Bool → Call
  feeding checking : (now : ℕ) → Call
  taking_sequence : Call
  validating : (seq : ℕ) → Call

module _ {D : Type 0} where
  unfoldable pub open_device : PcanBasic D → Bool × PcanBasic D
  open_device p = (false, report_error unsupported_operation p)

  unfoldable pub close : PcanBasic D → Bool × PcanBasic D
  close p = (false, p)

  unfoldable pub send : PcanBasic D → List ℕ → ℤ × PcanBasic D
  send p bytes = (error_result, report_error unsupported_operation p)

  unfoldable pub receive : PcanBasic D → List ℕ → ℕ → ℤ × List ℕ × PcanBasic D
  receive p buffer max_size = (error_result, [], report_error unsupported_operation p)

  unfoldable pub configure : PcanBasic D → PcanBasicConfig → Bool × PcanBasic D
  configure p config =
      if not (is_can config.protocol)
      then (false, p)
      else if not (is_valid_handle config.handle)
      then (false, p)
      else (true, record p { config = config })

  unfoldable pub perform : Call → PcanBasic D → PcanBasic D
  unfolding open_device close send receive configure feed_watchdog check_watchdog get_next_sequence
      validate_sequence
  perform opening p = (open_device p).1
  perform closing p = (close p).1
  perform (sending bytes) p = (send p bytes).1
  perform (receiving buffer n) p = (receive p buffer n).2
  perform (configuring config) p = (configure p config).1
  perform (setting_receive_callback present) p = set_receive_callback p present
  perform (setting_error_callback present) p = set_error_callback p present
  perform (feeding now) p = feed_watchdog p now
  perform (checking now) p = (check_watchdog p now).1
  perform taking_sequence p = (get_next_sequence p).1
  perform (validating seq) p = (validate_sequence p seq).1

  unfoldable pub run : List Call → PcanBasic D → PcanBasic D
  unfolding perform
  run [] p = p
  run (c ∷ calls) p = run calls (perform c p)

-- The calls that the interface reports as unsupported.
abbrev pub is_reported : Call → Bool
is_reported opening = true
is_reported (sending bytes) = true
is_reported (receiving buffer n) = true
is_reported _ = false

unfoldable pub reports : List Call → ℕ
reports [] = 0
reports (c ∷ calls) = (if is_reported c then 1 else 0) + reports calls
