-- ===== src/Mixin.antt =====
-- SafetyMixin of include/comm/core/safety_mixin.hpp: the watchdog, the sequence numbers, the failsafe
-- manager and the count of consecutive errors of a transport. Time is an argument, as in `Watchdog`.
pub mod Failures
mod Tests
use com_lib.Watchdog
use com_lib.Watchdog.{
  Watchdog, feed, check, new_watchdog, is_timed_out, set_timeout, default_timeout,
}
use com_lib.Sequence
use com_lib.Sequence.{
  Generator, Validator, next, current, validate, new_generator, new_validator, reset_generator,
  reset_validator,
}
use com_lib.Failsafe
use com_lib.Failsafe.{
  FailsafeState, FailsafeManager, report_fault, clear_faults, transition_to, new_manager, get_state,
  is_state, set_callback,
}
use com_lib.Prelude.{ℕ, zero, suc, ◌+◌, Bool, true, false, ◌||◌, not, leb, if◌then◌else◌, u64}

pub record Safety : Type 0 where
  pub watchdog : Watchdog
  pub generator : Generator
  pub validator : Validator
  pub manager : FailsafeManager
  pub consecutive_errors : ℕ

abbrev pub max_consecutive_errors : ℕ
max_consecutive_errors = 5

pub new_safety : ℕ → ℕ → Safety
new_safety limit now = record {
  watchdog = new_watchdog limit now;
  generator = new_generator;
  validator = new_validator;
  manager = new_manager;
  consecutive_errors = 0;
}

unfoldable pub feed_watchdog : Safety → ℕ → Safety
feed_watchdog s now = record s { watchdog = feed s.watchdog now }

-- A fault reported to the manager.
unfoldable pub fault : Safety → Safety
fault s = record s { manager = report_fault s.manager }

unfoldable pub check_watchdog : Safety → ℕ → Watchdog.State × Safety
check_watchdog s now =
    let (state, w) = check s.watchdog now in
    let s' = record s { watchdog = w } in
    (state, elim state [ Watchdog.timeout ↦ fault s' | _ ↦ s' ])

pub is_watchdog_timed_out : Safety → Bool
is_watchdog_timed_out s = is_timed_out s.watchdog

pub set_watchdog_timeout : Safety → ℕ → Safety
set_watchdog_timeout s limit = record s { watchdog = set_timeout s.watchdog limit }

unfoldable pub get_next_sequence : Safety → ℕ × Safety
get_next_sequence s = let (n, g) = next s.generator in (n, record s { generator = g })

pub get_current_sequence : Safety → ℕ
get_current_sequence s = current s.generator

unfoldable pub validate_sequence : Safety → ℕ → Sequence.Result × Safety
validate_sequence s seq =
    let (result, v) = validate s.validator seq in
    let s' = record s { validator = v } in
    (result, elim result [ Sequence.gap ↦ fault s' | Sequence.duplicate ↦ fault s' | _ ↦ s' ])

pub reset_sequence_validator : Safety → Safety
reset_sequence_validator s = record s { validator = reset_validator s.validator }

pub get_failsafe_state : Safety → FailsafeState
get_failsafe_state s = get_state s.manager

abbrev pub is_failsafe_normal : Safety → Bool
is_failsafe_normal s = is_state s.manager.state Failsafe.normal

pub reset_failsafe : Safety → Safety
reset_failsafe s = record s { manager = Failsafe.reset s.manager }

pub set_failsafe_callback : Safety → Bool → Safety
set_failsafe_callback s present = record s { manager = set_callback s.manager present }

unfoldable pub record_success : Safety → ℕ → Safety
unfolding feed_watchdog
record_success s now =
    let s' = feed_watchdog (record s { consecutive_errors = 0 }) now in
    if not (is_failsafe_normal s')
    then record s' { manager = (transition_to (clear_faults s'.manager) Failsafe.normal).1 }
    else s'

unfoldable pub record_failure : Safety → Safety
unfolding fault
record_failure s =
    let errors = u64 (s.consecutive_errors + 1) in
    let s' = record s { consecutive_errors = errors } in
    if leb max_consecutive_errors errors then fault s' else s'

pub reset_safety : Safety → ℕ → Safety
reset_safety s now = record {
  watchdog = Watchdog.reset s.watchdog now;
  generator = reset_generator s.generator;
  validator = reset_validator s.validator;
  manager = Failsafe.reset s.manager;
  consecutive_errors = 0;
}
