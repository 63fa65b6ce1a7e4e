-- ===== src/Failsafe/Severity.antt =====
-- The severity never falls but to `Normal`.
use com_lib.Failsafe.{
  FailsafeState, normal, severity, FailsafeManager, transition_to, report_fault, clear_faults,
  reset, set_callback,
}
use com_lib.Prelude.{
  ◌+◌, ◌≤◌, ◌<◌, ◌≡◌, ◌≢◌, ◌⊎◌, Bool, true, false, List, [], ◌∷◌, u64, arith, if◌then◌else◌,
}

pub data Call : Type 0 where
  transitions : FailsafeState → Call
  reports clears resets : Call
  sets_callback : Bool → Call

pub step : FailsafeManager → Call → FailsafeManager
unfolding transition_to report_fault clear_faults reset set_callback
step m (transitions s) = (transition_to m s).1
step m reports = report_fault m
step m clears = clear_faults m
step m resets = reset m
step m (sets_callback b) = set_callback m b

-- A request for `Normal` or for a state at least as severe is granted: it is counted, and a callback
-- that is set is called once with the old and the new state. Any other request is refused, changes
-- nothing and calls nobody.
transition_to_lem :
    (m : FailsafeManager) (s : FailsafeState)
    → (((s ≡ normal) ⊎ (severity m.state ≤ severity s))
        × (transition_to m s ≡ (
          true,
          record m { state = s; transition_count = u64 (m.transition_count + 1) },
          if m.has_callback then (m.state, s) ∷ [] else [],
        )))
      ⊎ ((s ≢ normal) × (severity s < severity m.state) × (transition_to m s ≡ (false, m, [])))
unfolding transition_to
transition_to_lem m s = ground arith

-- No call lowers the severity but one that leaves the manager in `Normal`.
pub severity-step :
    (m : FailsafeManager) (c : Call)
    → (severity m.state ≤ severity (step m c).state) ⊎ ((step m c).state ≡ normal)
unfolding step
severity-step m (transitions s) = ground arith
severity-step m reports = ground arith
severity-step m clears = ground arith
severity-step m resets = ground arith
severity-step m (sets_callback b) = ground arith

-- The faults of a history are reported with no other call between than ones that ask for a state
-- other than `Normal`.
abbrev pub KeepsFaults : Call → Type 0
KeepsFaults (transitions s) = s ≢ normal
KeepsFaults reports = Unit {0}
KeepsFaults clears = Unit {0}
KeepsFaults resets = ⊥
KeepsFaults (sets_callback b) = Unit {0}

abbrev pub AllKeep : List Call → Type 0
AllKeep [] = Unit {0}
AllKeep (c ∷ cs) = KeepsFaults c × AllKeep cs

pub run : FailsafeManager → List Call → FailsafeManager
unfolding step
run m [] = m
run m (c ∷ cs) = run (step m c) cs

step-KeepsFaults :
    (m : FailsafeManager) (c : Call) → KeepsFaults c → severity m.state ≤ severity (step m c).state
unfolding step
step-KeepsFaults m (transitions s) k = ground arith
step-KeepsFaults m reports k = ground arith
step-KeepsFaults m clears k = ground arith
step-KeepsFaults m resets k = absurd k
step-KeepsFaults m (sets_callback b) k = ground arith

-- Over every history that neither resets nor asks for `Normal`, in which faults may be reported and
-- cleared at will, the severity at the end is at least the severity at the start.
pub severity-run :
    (m : FailsafeManager) (cs : List Call)
    → AllKeep cs
    → severity m.state ≤ severity (run m cs).state
unfolding run
severity-run m [] k = omega arith
severity-run m (c ∷ cs) k = omega (arith, step-KeepsFaults m c k.0, severity-run (step m c) cs k.1)
