-- ===== src/Serial.antt =====
-- The serial transport: include/comm/serial/serial_port.hpp and src/serial/serial_port.cpp.
-- The mutex of the object stands in its state. To lock it while the same call holds it is undefined in the
-- language; in the model the call then never returns, which is the result `none`.
-- `Settings` has the terminal's settings, `Port` the operations, `Steps` any sequence of calls that return.
pub mod Defs
pub mod Settings
pub mod Port
pub mod Steps
pub mod Contract
mod Tests
