-- ===== src/SocketCan.antt =====
-- SocketCAN of include/comm/can/socketcan.hpp and src/can/socketcan.cpp, built with CAN FD.
-- `Defs` has the state, the configuration and the helpers, `Frames` the frames with their identifiers,
-- `Transfer` the calls that read and write, `Lifecycle` opening, closing and configuration,
-- `Calls` any sequence of these.
-- The mutexes are left out: each call is one step. The interface's name is a list of characters.
pub mod Defs
pub mod Frames
pub mod Transfer
pub mod Lifecycle
pub mod Calls
pub mod Threads
pub mod Contract
mod Tests
