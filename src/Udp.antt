-- ===== src/Udp.antt =====
-- The UDP transport: include/comm/ethernet/udp.hpp and src/ethernet/udp.cpp.
-- `Defs` has the state and the helpers, `Setup` how the socket is set up, `Transfer` sending and receiving,
-- `Lifecycle` the other calls and the health monitor, `Steps` any sequence of all,
-- `Monitor` the monitor's flag and thread. The mutexes are left out:
-- each call is one step.
pub mod Defs
pub mod Setup
pub mod Transfer
pub mod Lifecycle
pub mod Steps
pub mod Monitor
pub mod Contract
mod Tests
