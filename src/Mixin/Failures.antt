-- ===== src/Mixin/Failures.antt =====
-- How failures, successes and watchdog polls drive the failsafe state.
use com_lib.Watchdog
use com_lib.Watchdog.{State, feed, check}
use com_lib.Failsafe
use com_lib.Failsafe.{
  FailsafeState, FailsafeManager, report_fault, report_faults, transition_to, clear_faults,
  new_manager, is_state,
}
use com_lib.Failsafe.Escalation.{state_after, report_faults_state}
use com_lib.Mixin.{
  Safety, record_failure, record_success, check_watchdog, fault, max_consecutive_errors,
}
use com_lib.Prelude.{
  ℕ, zero, suc, ◌-◌, ◌^◌, ◌<◌, ◌≡◌, ◌≢◌, refl, ap, sym, ◌∙◌, List, [], ◌∷◌, leb, if◌then◌else◌,
  arith, Bool-cases, inl, inr, length,
}

unfoldable pub record_failures : ℕ → Safety → Safety
unfolding record_failure
record_failures zero s = s
record_failures (suc n) s = record_failure (record_failures n s)

one_failure :
    (s : Safety) (n : ℕ)
    → suc n < 2 ^ 64
    → s.consecutive_errors ≡ n
    → ((record_failure s).consecutive_errors ≡ suc n)
      × ((record_failure s).manager
          ≡ (if leb max_consecutive_errors (suc n) then report_fault s.manager else s.manager))
unfolding record_failure
one_failure s n fits e = ground arith

fault_number :
    (n : ℕ) (m : FailsafeManager)
    → (if leb max_consecutive_errors (suc n)
        then report_fault (report_faults (n - 4) m)
        else report_faults (n - 4) m)
      ≡ report_faults (suc n - 4) m
unfolding report_faults
fault_number n m = elim (Bool-cases (leb max_consecutive_errors (suc n))) [
  | inl late ↦
      let number : suc n - 4 ≡ suc (n - 4) = ground arith in
      rw late (sym (ap (λ k. report_faults k m) number))
  | inr early ↦
      let number : n - 4 ≡ suc n - 4 = ground arith in rw early (ap (λ k. report_faults k m) number)
]

failures_before :
    (n : ℕ) (s : Safety)
    → n < 2 ^ 64
    → s.consecutive_errors ≡ 0
    → ((record_failures n s).consecutive_errors ≡ n)
      × ((record_failures n s).manager ≡ report_faults (n - 4) s.manager)
unfolding record_failures report_faults
failures_before zero s fits start = (start, refl)
failures_before (suc n) s fits start =
    let (e, m) = failures_before n s (omega arith) start in
    let (e', m') = one_failure (record_failures n s) n fits e in
    (
      e',
      m'
          ∙ ap (λ x. if leb max_consecutive_errors (suc n) then report_fault x else x) m
          ∙ fault_number n s.manager,
    )

-- From `Normal` with no fault and no consecutive error, after `n` failures in a row (fewer than 2 ^ 64)
-- and no other call, all `n` are counted and every failure from the fifth on has reported a fault: the
-- manager is `Normal` up to the eighth failure, `Degraded` at the ninth, `FailSafe` up to the thirteenth
-- and `Emergency` from the fourteenth on.
pub record_failures_escalate :
    (n : ℕ) (s : Safety)
    → n < 2 ^ 64
    → s.consecutive_errors ≡ 0
    → s.manager.state ≡ Failsafe.normal
    → s.manager.fault_count ≡ 0
    → let s' = record_failures n s in
      (s'.consecutive_errors ≡ n)
      × (s'.manager.fault_count ≡ n - 4)
      × (s'.manager.state ≡ state_after (n - 4))
record_failures_escalate n s fits start st fc =
    let (e, m) = failures_before n s fits start in
    let (c, f) = report_faults_state (n - 4) s.manager (omega arith) st fc in
    (
      e,
      ap (λ (x : FailsafeManager). x.fault_count) m ∙ c,
      ap (λ (x : FailsafeManager). x.state) m ∙ f,
    )

-- A success leaves the manager in `Normal`, no consecutive error and a watchdog that is not timed
-- out. It clears the fault count only if the manager was not in `Normal`: in `Normal` the faults so far
-- stay counted.
record_success_lem :
    (s : Safety) (now : ℕ)
    → let s' = record_success s now in
      (s'.manager.state ≡ Failsafe.normal)
      × (s'.consecutive_errors ≡ 0)
      × (s'.watchdog.state ≢ Watchdog.timeout)
      × (s'.manager.fault_count
          ≡ (if is_state s.manager.state Failsafe.normal then s.manager.fault_count else 0))
unfolding record_success feed transition_to clear_faults
record_success_lem s now = ground arith

-- The watchdog is polled at each of the times.
unfoldable pub poll : List ℕ → Safety → Safety
unfolding check_watchdog
poll [] s = s
poll (now ∷ ts) s = poll ts (check_watchdog s now).1

one_poll :
    (s : Safety) (now : ℕ)
    → s.watchdog.state ≡ Watchdog.timeout
    → ((check_watchdog s now).1.watchdog.state ≡ Watchdog.timeout)
      × ((check_watchdog s now).1.manager ≡ report_fault s.manager)
unfolding check_watchdog check fault
one_poll s now t = ground arith

report_faults-shift :
    (n : ℕ) (m : FailsafeManager) → report_faults n (report_fault m) ≡ report_faults (suc n) m
unfolding report_faults
report_faults-shift zero m = refl
report_faults-shift (suc n) m = ap report_fault (report_faults-shift n m)

polled :
    (ts : List ℕ) (s : Safety)
    → s.watchdog.state ≡ Watchdog.timeout
    → (poll ts s).manager ≡ report_faults (length ts) s.manager
unfolding poll report_faults
polled [] s t = refl
polled (now ∷ ts) s t =
    let (t', m) = one_poll s now t in
    polled ts (check_watchdog s now).1 t'
    ∙ ap (report_faults (length ts)) m
    ∙ report_faults-shift (length ts) s.manager

-- Every poll of a watchdog that has timed out reports one more fault, so one lost heartbeat escalates
-- with the polling alone: from `Normal` with no fault, five polls (of fewer than 2 ^ 64) give `Degraded`,
-- six `FailSafe` and ten `Emergency`.
pub poll_escalates :
    (ts : List ℕ) (s : Safety)
    → length ts < 2 ^ 64
    → s.watchdog.state ≡ Watchdog.timeout
    → s.manager.state ≡ Failsafe.normal
    → s.manager.fault_count ≡ 0
    → ((poll ts s).manager.fault_count ≡ length ts)
      × ((poll ts s).manager.state ≡ state_after (length ts))
poll_escalates ts s fits t st fc =
    let m = polled ts s t in
    let (c, f) = report_faults_state (length ts) s.manager fits st fc in
    (ap (λ (x : FailsafeManager). x.fault_count) m ∙ c, ap (λ (x : FailsafeManager). x.state) m ∙ f)
