-- ===== src/Watchdog/Liveness.antt =====
-- When the watchdog fires.
use com_lib.Watchdog.{
  Watchdog, inactive, timeout, feed, check, Call, feeds, checks, sets_timeout, step, run,
  set_timeout,
}
use com_lib.Prelude.{
  ℕ, ◌+◌, ◌-◌, ◌*◌, ◌≤◌, ◌<◌, ◌≡◌, ◌≢◌, ◌↔◌, ◌⊎◌, refl, ◌∙◌, List, [], ◌∷◌, arith,
}

-- `check` reports `Timeout` exactly when the watchdog was started and either had timed out already
-- or was last fed more than its timeout ago.
check_timeout_iff :
    (w : Watchdog) (now : ℕ)
    → ((check w now).0 ≡ timeout) ↔ (
        (w.state ≢ inactive) × ((w.state ≡ timeout) ⊎ (w.limit * 1000000 < now - w.last_feed_time)))
unfolding check
check_timeout_iff w now = (ground arith, ground arith)

-- A history in which each check comes within the timeout of the last feed, by the history alone: `fed` is
-- the time of the feed before it, and `limit` the timeout set before it.
abbrev pub IsPunctual : (fed limit : ℕ) → List (ℕ × Call) → Type 0
IsPunctual fed limit [] = Unit {0}
IsPunctual fed limit ((now, feeds) ∷ cs) = IsPunctual now limit cs
IsPunctual fed limit ((now, checks) ∷ cs) = (now ≤ fed + limit * 1000000) × IsPunctual fed limit cs
IsPunctual fed limit ((now, sets_timeout l) ∷ cs) = IsPunctual fed l cs

feed_quiet :
    (w : Watchdog) (now : ℕ)
    → w.state ≢ timeout
    → ((feed w now).state ≢ timeout)
      × ((feed w now).timeout_count ≡ w.timeout_count)
      × ((feed w now).last_feed_time ≡ now)
      × ((feed w now).limit ≡ w.limit)
unfolding feed
feed_quiet w now h = ground arith

check_quiet :
    (w : Watchdog) (now : ℕ)
    → w.state ≢ timeout
    → now ≤ w.last_feed_time + w.limit * 1000000
    → ((check w now).1.state ≢ timeout)
      × ((check w now).1.timeout_count ≡ w.timeout_count)
      × ((check w now).1.last_feed_time ≡ w.last_feed_time)
      × ((check w now).1.limit ≡ w.limit)
unfolding check
check_quiet w now h p = ground arith

-- A watchdog that has not timed out, and that is fed, given new timeouts and checked, the checks only
-- within the timeout of the last feed, never times out and counts no timeout. Which feed and timeout is
-- the last one is read off the history, and at its start off the watchdog.
pub run_punctual :
    (w : Watchdog) (cs : List (ℕ × Call))
    → w.state ≢ timeout
    → IsPunctual w.last_feed_time w.limit cs
    → ((run w cs).state ≢ timeout) × ((run w cs).timeout_count ≡ w.timeout_count)
unfolding run step
run_punctual w [] h p = (h, refl)
run_punctual w ((now, feeds) ∷ cs) h p =
    let quiet = feed_quiet w now h in
    let fed = quiet.2 in
    let limit = quiet.3 in
    let rest = run_punctual (feed w now) cs quiet.0 (rw (fed, limit) p) in
    (rest.0, rest.1 ∙ quiet.1)
run_punctual w ((now, checks) ∷ cs) h p =
    let quiet = check_quiet w now h p.0 in
    let fed = quiet.2 in
    let limit = quiet.3 in
    let rest = run_punctual (check w now).1 cs quiet.0 (rw (fed, limit) p.1) in
    (rest.0, rest.1 ∙ quiet.1)
run_punctual w ((now, sets_timeout l) ∷ cs) h p = run_punctual (set_timeout w l) cs h p
