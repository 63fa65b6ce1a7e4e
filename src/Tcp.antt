-- ===== src/Tcp.antt =====
-- The TCP transport: include/comm/ethernet/tcp.hpp and src/ethernet/tcp.cpp.
-- `Defs` has the state and the helpers, `Connection` how sockets are set up and closed, `Reconnect`
-- `ensureConnected`, `Transfer` sending and receiving, `Lifecycle` the other calls, `Steps` any sequence of all.
-- The mutexes are left out: each call is one step.
pub mod Defs
pub mod Connection
pub mod Reconnect
pub mod Transfer
pub mod Lifecycle
pub mod Steps
mod Tests
