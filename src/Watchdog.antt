-- ===== src/Watchdog.antt =====
-- Watchdog of include/comm/core/safety.hpp.
-- Time is an argument: what `steady_clock::now()` gives, in nanoseconds, which never falls. The
-- timeout is in milliseconds and is not negative. The mutex makes each call one step.
pub mod Liveness
pub mod Counts
mod Tests
use com_lib.Prelude.{
  ℕ, ◌+◌, ◌-◌, ◌*◌, ◌/◌, Bool, true, false, List, [], ◌∷◌, ltb, if◌then◌else◌, u64,
}

-- `Watchdog::State`
pub data State : Type 0 where
  inactive active timeout recovered : State

pub record Watchdog : Type 0 where
  pub limit : ℕ
  pub last_feed_time : ℕ
  pub state : State
  pub timeout_count : ℕ
  pub recovery_count : ℕ

abbrev pub default_timeout : ℕ
default_timeout = 1000

pub new_watchdog : ℕ → ℕ → Watchdog
new_watchdog limit now = record {
  limit = limit;
  last_feed_time = now;
  state = inactive;
  timeout_count = 0;
  recovery_count = 0;
}

unfoldable pub feed : Watchdog → ℕ → Watchdog
feed w now = elim w.state [
  | timeout ↦ record w {
    last_feed_time = now;
    state = recovered;
    recovery_count = u64 (w.recovery_count + 1);
  }
  | inactive ↦ record w { last_feed_time = now; state = active }
  | _ ↦ record w { last_feed_time = now }
]

-- `elapsed > timeout_`, with the timeout in nanoseconds.
abbrev pub is_overdue : Watchdog → ℕ → Bool
is_overdue w now = ltb (w.limit * 1000000) (now - w.last_feed_time)

-- The branches on `state_` inside the overdue case.
expire : Watchdog → Watchdog
expire w = elim w.state [
  | timeout ↦ w
  | _ ↦ record w { state = timeout; timeout_count = u64 (w.timeout_count + 1) }
]

unfoldable pub check : Watchdog → ℕ → State × Watchdog
unfolding expire
check w now = elim w.state [
  | inactive ↦ (inactive, w)
  | _ ↦ let w' = if is_overdue w now then expire w else w in (w'.state, w')
]

-- `duration_cast<milliseconds>` of the time since the last feed.
pub time_since_last_feed : Watchdog → ℕ → ℕ
time_since_last_feed w now = (now - w.last_feed_time) / 1000000

pub is_timed_out : Watchdog → Bool
is_timed_out w = elim w.state [ timeout ↦ true | _ ↦ false ]

pub set_timeout : Watchdog → ℕ → Watchdog
set_timeout w limit = record w { limit = limit }

unfoldable pub reset : Watchdog → ℕ → Watchdog
reset w now = record w { state = inactive; last_feed_time = now }

-- `Watchdog::Stats`
pub record Stats : Type 0 where
  pub timeout_count : ℕ
  pub recovery_count : ℕ
  pub current_state : State
  pub time_since_last_feed : ℕ

pub get_stats : Watchdog → ℕ → Stats
unfolding time_since_last_feed
get_stats w now = record {
  timeout_count = w.timeout_count;
  recovery_count = w.recovery_count;
  current_state = w.state;
  time_since_last_feed = time_since_last_feed w now;
}

-- What a client may call, each with the clock's value.
pub data Call : Type 0 where
  feeds checks : Call
  sets_timeout : ℕ → Call

pub step : Watchdog → ℕ × Call → Watchdog
unfolding feed check set_timeout
step w (now, feeds) = feed w now
step w (now, checks) = (check w now).1
step w (now, sets_timeout limit) = set_timeout w limit

pub run : Watchdog → List (ℕ × Call) → Watchdog
unfolding step
run w [] = w
run w (c ∷ cs) = run (step w c) cs
