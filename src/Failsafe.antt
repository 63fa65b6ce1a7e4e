-- ===== src/Failsafe.antt =====
-- FailsafeManager of include/comm/core/safety.hpp.
-- The mutex makes each call one step. The callback is a function pointer of the client: the model
-- keeps whether one is set, and `transition_to` returns the calls it makes of it, as pairs of the
-- old and the new state.
pub mod Escalation
pub mod Severity
mod Tests
use com_lib.Prelude.{
  ℕ, zero, suc, ◌+◌, ◌≤◌, Bool, true, false, ◌&&◌, ◌||◌, not, List, [], ◌∷◌, ltb, leb,
  if◌then◌else◌, u64, ◌==◌,
}

pub data FailsafeState : Type 0 where
  normal degraded failsafe emergency : FailsafeState

-- `static_cast<int>` of a state.
abbrev pub severity : FailsafeState → ℕ
severity normal = 0
severity degraded = 1
severity failsafe = 2
severity emergency = 3

abbrev pub is_state : FailsafeState → FailsafeState → Bool
is_state a b = severity a == severity b

pub record FailsafeManager : Type 0 where
  pub state : FailsafeState
  pub fault_count : ℕ
  pub transition_count : ℕ
  pub has_callback : Bool

abbrev pub new_manager : FailsafeManager
new_manager = record { state = normal; fault_count = 0; transition_count = 0; has_callback = false }

abbrev pub degraded_threshold : ℕ
degraded_threshold = 3

abbrev pub failsafe_threshold : ℕ
failsafe_threshold = 5

abbrev pub emergency_threshold : ℕ
emergency_threshold = 10

unfoldable pub is_valid_transition : FailsafeState → FailsafeState → Bool
is_valid_transition old new =
    if is_state new normal then true else leb (severity old) (severity new)

pub get_state : FailsafeManager → FailsafeState
get_state m = m.state

unfoldable pub transition_to :
    FailsafeManager → FailsafeState → Bool × FailsafeManager × List (FailsafeState × FailsafeState)
unfolding is_valid_transition
transition_to m new_state =
    if not (is_valid_transition m.state new_state) then (false, m, []) else (
      true,
      record m { state = new_state; transition_count = u64 (m.transition_count + 1) },
      if m.has_callback then (m.state, new_state) ∷ [] else [],
    )

-- The escalation after the count has been raised.
escalate : FailsafeManager → FailsafeManager
escalate m =
    if leb emergency_threshold m.fault_count && not (is_state m.state emergency)
    then record m { state = emergency }
    else if leb failsafe_threshold m.fault_count && is_state m.state normal
    then record m { state = degraded }
    else if leb degraded_threshold m.fault_count && is_state m.state degraded
    then record m { state = failsafe }
    else m

unfoldable pub report_fault : FailsafeManager → FailsafeManager
unfolding escalate
report_fault m = escalate (record m { fault_count = u64 (m.fault_count + 1) })

unfoldable pub clear_faults : FailsafeManager → FailsafeManager
clear_faults m = record m { fault_count = 0 }

unfoldable pub reset : FailsafeManager → FailsafeManager
reset m = record m { state = normal; fault_count = 0 }

pub set_callback : FailsafeManager → Bool → FailsafeManager
set_callback m present = record m { has_callback = present }

-- `FailsafeManager::Stats`
pub record Stats : Type 0 where
  pub fault_count : ℕ
  pub transition_count : ℕ
  pub current_state : FailsafeState

pub get_stats : FailsafeManager → Stats
get_stats m = record {
  fault_count = m.fault_count;
  transition_count = m.transition_count;
  current_state = m.state;
}

unfoldable pub report_faults : ℕ → FailsafeManager → FailsafeManager
unfolding report_fault
report_faults zero m = m
report_faults (suc n) m = report_fault (report_faults n m)
