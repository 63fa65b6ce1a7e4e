-- ===== src/Pcan/Monitor/Calls.antt =====
-- Every call keeps the receive thread and its flag together, and the configuration valid.
use com_lib.Pcan.Defs.{
  Driver, PcanBasicConfig, PcanBasic, is_valid_handle, report_error, start_receive_thread,
  stop_receive_thread, set_receive_callback, set_error_callback,
}
use com_lib.Pcan.Lifecycle.{is_can, uninitialize, open_device, close, configure}
use com_lib.Pcan.Transfer.{send, receive}
use com_lib.Pcan.Monitor.{
  new_pcan_basic, feed_watchdog, check_watchdog, validate_sequence, get_next_sequence,
}
use com_lib.Pcan.Monitor.Threads.{
  KeptSend, KeptReceive, initialize-Kept, send-KeptSend, receive-KeptReceive,
}
use com_lib.Prelude.Int.{ℤ}
use com_lib.Prelude.{ℕ, ◌≡◌, Bool, true, false, List, [], ◌∷◌, Option, none, some, arith}

-- The receive thread is there exactly when it is told to run, and the configuration is for a CAN
-- channel that `isValidHandle` accepts.
pub record IsSound {D : Type 0} (p : PcanBasic D) : Type 0 where
  pub thread : p.running ≡ p.joinable
  pub handle : is_valid_handle p.config.handle ≡ true
  pub protocol : is_can p.config.protocol ≡ true

-- A call, with its arguments. The results are dropped.
pub data Call : Type 0 where
  opens closes : Call
  configures : PcanBasicConfig → Call
  sets_receive_callback sets_error_callback : Bool → Call
  sends : List ℕ → Call
  receives : ℕ → Call
  feeds checks gets_sequence : Call
  validates : ℕ → Call

module _ {D : Type 0} (drv : Driver D) where
  -- The state after a result.
  abbrev pub state_of : Option (Bool × PcanBasic D) → Option (PcanBasic D)
  state_of none = none
  state_of (some (b, p)) = some p

  abbrev pub sent_state : Option (ℤ × PcanBasic D) → Option (PcanBasic D)
  sent_state none = none
  sent_state (some (r, p)) = some p

  abbrev pub received_state : Option (ℤ × List ℕ × PcanBasic D) → Option (PcanBasic D)
  received_state none = none
  received_state (some (r, out, p)) = some p

  unfoldable pub step : PcanBasic D → ℕ → Call → Option (PcanBasic D)
  step p now opens = state_of (open_device drv p)
  step p now closes = state_of (close drv p)
  step p now (configures config) = state_of (configure drv p config)
  step p now (sets_receive_callback present) = some (set_receive_callback p present)
  step p now (sets_error_callback present) = some (set_error_callback p present)
  step p now (sends bytes) = sent_state (send drv p bytes now)
  step p now (receives max_size) = received_state (receive drv p [] max_size now)
  step p now feeds = some (feed_watchdog p now)
  step p now checks = some (check_watchdog p now).1
  step p now gets_sequence = some (get_next_sequence p).1
  step p now (validates seq) = some (validate_sequence p seq).1

  unfoldable pub run : Option (PcanBasic D) → List (ℕ × Call) → Option (PcanBasic D)
  run none calls = none
  run (some p) [] = some p
  run (some p) ((now, c) ∷ calls) = run (step p now c) calls

  abbrev pub AllSound : Option (PcanBasic D) → Type 0
  AllSound none = Unit {0}
  AllSound (some p) = IsSound p

  open_device-AllSound : (p : PcanBasic D) → IsSound p → AllSound (state_of (open_device drv p))
  unfolding open_device start_receive_thread report_error
  open_device-AllSound p h = ground (arith, initialize-Kept drv p, h.thread, h.handle, h.protocol)

  close-AllSound : (p : PcanBasic D) → IsSound p → AllSound (state_of (close drv p))
  unfolding close stop_receive_thread uninitialize
  close-AllSound p h = ground (arith, h.thread, h.handle, h.protocol)

  -- The device that `configure` starts anew.
  abbrev reconfigured : PcanBasic D → PcanBasicConfig → PcanBasic D
  reconfigured p config = record (stop_receive_thread (record p { config = config })) {
    device = drv.can_uninitialize config.handle p.device;
    initialized = false;
  }

  configure-AllSound :
      (p : PcanBasic D) (config : PcanBasicConfig)
      → IsSound p
      → AllSound (state_of (configure drv p config))
  unfolding configure start_receive_thread stop_receive_thread uninitialize
  configure-AllSound p config h =
      ground (arith, h.thread, h.handle, h.protocol, initialize-Kept drv (reconfigured p config))

  set_receive_callback-IsSound :
      (p : PcanBasic D) (present : Bool) → IsSound p → IsSound (set_receive_callback p present)
  unfolding set_receive_callback start_receive_thread
  set_receive_callback-IsSound p present h = ground (arith, h.thread, h.handle, h.protocol)

  sent-AllSound :
      (p : PcanBasic D) (r : Option (ℤ × PcanBasic D))
      → IsSound p
      → KeptSend drv p r
      → AllSound (sent_state r)
  sent-AllSound p r h k = ground (arith, h.thread, h.handle, h.protocol)

  received-AllSound :
      (p : PcanBasic D) (r : Option (ℤ × List ℕ × PcanBasic D))
      → IsSound p
      → KeptReceive drv p r
      → AllSound (received_state r)
  received-AllSound p r h k = ground (arith, h.thread, h.handle, h.protocol)

  step-AllSound : (p : PcanBasic D) (now : ℕ) (c : Call) → IsSound p → AllSound (step p now c)
  unfolding step set_error_callback feed_watchdog check_watchdog get_next_sequence validate_sequence
  step-AllSound p now opens h = open_device-AllSound p h
  step-AllSound p now closes h = close-AllSound p h
  step-AllSound p now (configures config) h = configure-AllSound p config h
  step-AllSound p now (sets_receive_callback present) h = set_receive_callback-IsSound p present h
  step-AllSound p now (sets_error_callback present) h =
      ground (arith, h.thread, h.handle, h.protocol)
  step-AllSound p now (sends bytes) h =
      sent-AllSound p (send drv p bytes now) h (send-KeptSend drv p bytes now)
  step-AllSound p now (receives max_size) h =
      received-AllSound p (receive drv p [] max_size now) h
        (receive-KeptReceive drv p [] max_size now)
  step-AllSound p now feeds h = ground (arith, h.thread, h.handle, h.protocol)
  step-AllSound p now checks h = ground (arith, h.thread, h.handle, h.protocol)
  step-AllSound p now gets_sequence h = ground (arith, h.thread, h.handle, h.protocol)
  step-AllSound p now (validates seq) h = ground (arith, h.thread, h.handle, h.protocol)

  run-AllSound :
      (r : Option (PcanBasic D)) (calls : List (ℕ × Call)) → AllSound r → AllSound (run r calls)
  unfolding run
  run-AllSound none calls h = tt
  run-AllSound (some p) [] h = h
  run-AllSound (some p) ((now, c) ∷ calls) h =
      run-AllSound (step p now c) calls (step-AllSound p now c h)

  new_pcan_basic-AllSound :
      (config : PcanBasicConfig) (device : D) (now : ℕ)
      → AllSound (new_pcan_basic config device now)
  unfolding new_pcan_basic
  new_pcan_basic-AllSound config device now = ground arith

  -- Whatever calls follow the construction, in whatever order and at whatever times: while none of them
  -- loops forever in a failed assertion, a receive thread exists exactly when it is told to run, and
  -- the configuration is for the CAN protocol with a handle that `isValidHandle` accepts.
  pub run_new-AllSound :
      (config : PcanBasicConfig) (device : D) (start : ℕ) (calls : List (ℕ × Call))
      → AllSound (run (new_pcan_basic config device start) calls)
  run_new-AllSound config device start calls =
      run-AllSound (new_pcan_basic config device start) calls
        (new_pcan_basic-AllSound config device start)
