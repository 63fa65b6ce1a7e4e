-- ===== src/Pcan.antt =====
-- PCANBasic of src/can/pcan_basic.cpp and include/comm/can/pcan_basic.hpp, built with COMM_HAS_PCAN.
-- `Defs` holds the state, the driver and the helpers, `Lifecycle` opening, closing, recovery and
-- configuration, `Transfer` sending and receiving, and `Monitor` the constructor, the receive loop
-- and the safety calls.
pub mod Defs
pub mod Lifecycle
pub mod Transfer
pub mod Monitor
pub mod Unsupported
mod Tests
