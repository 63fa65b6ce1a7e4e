-- ===== src/Watchdog/Tests.antt =====
-- The theorems on the watchdog at concrete states.
use com_lib.Watchdog.{Watchdog, active, timeout, Call, feeds, checks, sets_timeout, run, step}
use com_lib.Watchdog.Liveness.{run_punctual}
use com_lib.Prelude.{ℕ, ◌≡◌, ◌≢◌, List, [], ◌∷◌, arith}

abbrev started : Watchdog
started = record {
  limit = 1000;
  last_feed_time = 5000000;
  state = active;
  timeout_count = 0;
  recovery_count = 0;
}

abbrev history : List (ℕ × Call)
history =
    (6000000, checks)
    ∷ (2000000000, checks)
    ∷ (2000000001, checks)
    ∷ (2000000002, feeds)
    ∷ (2000000003, sets_timeout 1)
    ∷ (2100000000, checks)
    ∷ []

abbrev expired : Watchdog
expired = record started { state = timeout; timeout_count = 1 }

abbrev prompt : List (ℕ × Call)
prompt = (6000000, checks) ∷ (900000000, feeds) ∷ (1800000000, checks) ∷ []

run_punctual_example :
    ((run started prompt).state ≢ timeout) × ((run started prompt).timeout_count ≡ 0)
unfolding step
run_punctual_example = run_punctual started prompt (ground arith) (omega arith)
