-- ===== src/Failsafe/Escalation.antt =====
-- The state after a number of faults.
use com_lib.Failsafe.{
  FailsafeState, normal, degraded, failsafe, emergency, FailsafeManager, report_fault,
  report_faults,
}
use com_lib.Prelude.{ℕ, zero, suc, ◌^◌, ◌<◌, ◌≡◌, ltb, if◌then◌else◌, arith}

-- What the thresholds amount to when every fault is reported from `Normal` on.
abbrev pub state_after : ℕ → FailsafeState
state_after n =
    if ltb n 5
    then normal
    else if ltb n 6
    then degraded
    else if ltb n 10
    then failsafe
    else emergency

one_more :
    (m : FailsafeManager) (n : ℕ)
    → suc n < 2 ^ 64
    → m.fault_count ≡ n
    → m.state ≡ state_after n
    → ((report_fault m).fault_count ≡ suc n) × ((report_fault m).state ≡ state_after (suc n))
unfolding report_fault
one_more m n fits c s = ground arith

-- A manager that starts in `Normal` with no fault shows after `n` reported faults (fewer than
-- 2 ^ 64), and no other call: `Normal` below five, `Degraded` at five, `FailSafe` from six to nine and `Emergency` from ten
-- on, with all of them counted. So `Degraded` comes with the fifth fault and lasts for one fault.
pub report_faults_state :
    (n : ℕ) (m : FailsafeManager)
    → n < 2 ^ 64
    → m.state ≡ normal
    → m.fault_count ≡ 0
    → ((report_faults n m).fault_count ≡ n) × ((report_faults n m).state ≡ state_after n)
unfolding report_faults
report_faults_state zero m fits s c = (c, s)
report_faults_state (suc n) m fits s c =
    let before = report_faults_state n m (omega arith) s c in
    one_more (report_faults n m) n fits before.0 before.1
