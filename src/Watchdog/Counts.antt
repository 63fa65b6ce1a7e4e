-- ===== src/Watchdog/Counts.antt =====
-- The timeout and recovery counters against the state.
use com_lib.Watchdog.{
  Watchdog, State, timeout, recovered, Call, feeds, checks, sets_timeout, step, run,
}
use com_lib.Prelude.{ℕ, ◌+◌, ◌≡◌, ◌⊎◌, List, [], ◌∷◌, u64, arith}

abbrev pub pending : State → ℕ
pending timeout = 1
pending _ = 0

-- Every timeout but a present one has been recovered from.
abbrev pub IsBalanced : Watchdog → Type 0
IsBalanced w = u64 w.timeout_count ≡ u64 (w.recovery_count + pending w.state)

step-IsBalanced : (w : Watchdog) (c : ℕ × Call) → IsBalanced w → IsBalanced (step w c)
unfolding step
step-IsBalanced w (now, feeds) h = ground arith
step-IsBalanced w (now, checks) h = ground arith
step-IsBalanced w (now, sets_timeout limit) h = h

-- Every history without a reset keeps this: the timeouts counted are the recoveries counted, and one
-- more exactly while the watchdog is timed out (modulo 2 ^ 64).
pub run-IsBalanced : (w : Watchdog) (cs : List (ℕ × Call)) → IsBalanced w → IsBalanced (run w cs)
unfolding run
run-IsBalanced w [] h = h
run-IsBalanced w (c ∷ cs) h = run-IsBalanced (step w c) cs (step-IsBalanced w c h)

abbrev pub HasTimedOut : State → Type 0
HasTimedOut s = (s ≡ timeout) ⊎ (s ≡ recovered)

step-HasTimedOut :
    (w : Watchdog) (c : ℕ × Call) → HasTimedOut w.state → HasTimedOut (step w c).state
unfolding step
step-HasTimedOut w (now, feeds) h = ground arith
step-HasTimedOut w (now, checks) h = ground arith
step-HasTimedOut w (now, sets_timeout limit) h = h

-- Once timed out or recovered, a watchdog that is not reset never shows `Active` again: from then on its state
-- is `Timeout` or `Recovered`, whatever is called.
run-HasTimedOut :
    (w : Watchdog) (cs : List (ℕ × Call)) → HasTimedOut w.state → HasTimedOut (run w cs).state
unfolding run
run-HasTimedOut w [] h = h
run-HasTimedOut w (c ∷ cs) h = run-HasTimedOut (step w c) cs (step-HasTimedOut w c h)
