-- ===== src/Mixin/Tests.antt =====
-- The theorems on failures and polls at concrete states.
use com_lib.Watchdog
use com_lib.Failsafe
use com_lib.Failsafe.{FailsafeState, FailsafeManager, is_state}
use com_lib.Failsafe.Escalation.{state_after}
use com_lib.Mixin.{Safety}
use com_lib.Mixin.Failures.{poll, poll_escalates}
use com_lib.Prelude.{ℕ, ◌≡◌, refl, false, List, [], ◌∷◌, arith}

abbrev timed_out : Safety
timed_out = record {
  watchdog = record {
    limit = 1000;
    last_feed_time = 0;
    state = Watchdog.timeout;
    timeout_count = 1;
    recovery_count = 0;
  };
  generator = record { counter = 3 };
  validator = record {
    initialized = false;
    expected_sequence = 0;
    duplicate_count = 0;
    gap_count = 0;
    wrap_around_count = 0;
  };
  manager = record {
    state = Failsafe.normal;
    fault_count = 0;
    transition_count = 0;
    has_callback = false;
  };
  consecutive_errors = 0;
}

abbrev times : List ℕ
times = 5 ∷ 6 ∷ 7 ∷ 8 ∷ 9 ∷ 10 ∷ 11 ∷ []

poll_escalates_example :
    ((poll times timed_out).manager.fault_count ≡ 7)
    × ((poll times timed_out).manager.state ≡ state_after 7)
poll_escalates_example = poll_escalates times timed_out (omega arith) refl refl refl
