-- ===== src/Pcan/Monitor.antt =====
-- The constructor, the loop of the receive thread and the safety interface of PCANBasic.
-- The safety interface is the one of `Mixin`, on the state that a transport holds.
pub mod Threads
pub mod Calls
use com_lib.Watchdog
use com_lib.Sequence
use com_lib.Failsafe
use com_lib.Failsafe.{FailsafeState}
use com_lib.Mixin
use com_lib.Mixin.{new_safety}
use com_lib.Transport.{new_statistics}
use com_lib.Pcan.Defs.{
  Driver, PcanBasicConfig, PcanBasic, assert, is_valid_handle, get_payload_limit,
  max_receive_loop_iterations,
}
use com_lib.Pcan.Lifecycle.{is_can}
use com_lib.Pcan.Transfer.{receive}
use com_lib.Prelude.Int.{ℤ, pos, negsuc}
use com_lib.Prelude.{
  ℕ, suc, ◌+◌, Bool, true, false, not, List, [], ◌∷◌, Option, none, some, ltb, if◌then◌else◌,
}

-- `SafetyStats`
pub record SafetyStats : Type 0 where
  pub watchdog : Watchdog.Stats
  pub sequence : Sequence.Stats
  pub failsafe : Failsafe.Stats
  pub consecutive_errors : ℕ

abbrev pub is_positive_result : ℤ → Bool
is_positive_result (pos n) = ltb 0 n
is_positive_result (negsuc n) = false

module _ {D : Type 0} where
  unfoldable pub new_pcan_basic : PcanBasicConfig → D → ℕ → Option (PcanBasic D)
  new_pcan_basic config device now = assert (is_can config.protocol) (
      assert (is_valid_handle config.handle) (
        some (record {
          config = config;
          stats = new_statistics;
          has_receive_callback = false;
          has_error_callback = false;
          healthy = true;
          running = false;
          joinable = false;
          initialized = false;
          safety = new_safety Watchdog.default_timeout now;
          error_calls = [];
          device = device;
        })))

  unfoldable pub feed_watchdog : PcanBasic D → ℕ → PcanBasic D
  feed_watchdog p now = record p { safety = Mixin.feed_watchdog p.safety now }

  unfoldable pub check_watchdog : PcanBasic D → ℕ → Watchdog.State × PcanBasic D
  check_watchdog p now =
      let (state, s) = Mixin.check_watchdog p.safety now in (state, record p { safety = s })

  pub get_failsafe_state : PcanBasic D → FailsafeState
  get_failsafe_state p = Mixin.get_failsafe_state p.safety

  unfoldable pub get_next_sequence : PcanBasic D → ℕ × PcanBasic D
  get_next_sequence p =
      let (n, s) = Mixin.get_next_sequence p.safety in (n, record p { safety = s })

  unfoldable pub validate_sequence : PcanBasic D → ℕ → Sequence.Result × PcanBasic D
  validate_sequence p seq =
      let (result, s) = Mixin.validate_sequence p.safety seq in (result, record p { safety = s })

  pub get_safety_stats : PcanBasic D → ℕ → SafetyStats
  get_safety_stats p now = record {
    watchdog = Watchdog.get_stats p.safety.watchdog now;
    sequence = Sequence.get_stats p.safety.validator;
    failsafe = Failsafe.get_stats p.safety.manager;
    consecutive_errors = p.safety.consecutive_errors;
  }

  -- One round of `receiveLoop` at `total_iterations`: the new count, the bytes that the callback is
  -- called with, and the state.
  unfoldable pub receive_round :
      Driver D → ℕ → PcanBasic D → ℕ → Option (ℕ × List (List ℕ) × PcanBasic D)
  receive_round drv total_iterations p now =
      let raised = total_iterations + 1 in
      let total = if ltb max_receive_loop_iterations raised then 0 else raised in
      elim (receive drv p [] (get_payload_limit p.config.enable_fd) now) [
        | none ↦ none
        | some (result, buffer, p') ↦
            if is_positive_result result then some (0, buffer ∷ [], p') else some (total, [], p')
      ]
