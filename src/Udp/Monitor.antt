-- ===== src/Udp/Monitor.antt =====
-- The flag and the thread of the health monitor, src/ethernet/udp.cpp.
use com_lib.Posix.{Os}
use com_lib.Udp.Defs.{Udp}
use com_lib.Prelude.{◌≡◌}

module _ {K : Type 0} (os : Os K) where
  abbrev Same : Udp K → Udp K → Type 0
  Same p q = (q.monitor_running ≡ p.monitor_running) × (q.monitor_joinable ≡ p.monitor_joinable)
