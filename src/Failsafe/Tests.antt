-- ===== src/Failsafe/Tests.antt =====
-- The theorems on the failsafe manager at concrete histories.
use com_lib.Failsafe.{
  degraded, failsafe, emergency, FailsafeManager, new_manager, severity, report_faults,
}
use com_lib.Failsafe.Escalation.{state_after, report_faults_state}
use com_lib.Failsafe.Severity.{Call, transitions, reports, clears, run, severity-run}
use com_lib.Prelude.{◌≤◌, ◌≡◌, refl, true, List, [], ◌∷◌, arith}

report_faults_state_example :
    ((report_faults 7 new_manager).fault_count ≡ 7)
    × ((report_faults 7 new_manager).state ≡ state_after 7)
report_faults_state_example = report_faults_state 7 new_manager (omega arith) refl refl

abbrev watched : FailsafeManager
watched = record { state = failsafe; fault_count = 6; transition_count = 0; has_callback = true }

abbrev history : List Call
history = reports ∷ clears ∷ transitions degraded ∷ transitions emergency ∷ reports ∷ []

severity-run_example : severity watched.state ≤ severity (run watched history).state
severity-run_example =
    severity-run watched history
      (tt, (tt, (λ e. ground (arith, e), (λ e. ground (arith, e), (tt, tt)))))
