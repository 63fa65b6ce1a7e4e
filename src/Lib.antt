-- ===== src/Lib.antt =====
-- Verification of communication_lib, a C++ library of transports (UDP, TCP, serial, CAN) with
-- safety mechanisms for flight software.
--
-- The parts and how they interact. include/comm/core/safety.hpp has the CRC-32 checksum, the sequence
-- numbers, the watchdog, the failsafe manager, the redundancy manager, the input checks and the frame
-- header; include/comm/core/do178c.hpp has assertions, bounded loops, checked arithmetic, fixed buffers
-- and block operations. PCANBasic (src/can/pcan_basic.cpp) holds a watchdog, a sequence generator and
-- validator, a failsafe manager and a count of consecutive errors, and reports its successes and failures to
-- them; include/comm/core/safety_mixin.hpp gives the same as a mixin. The socket transports and the serial
-- port keep statistics, a health flag, two callbacks and a receive thread, and work on a descriptor of the
-- operating system.
--
-- Files and what they model:
--   Prelude, Bits   names, lists, words and bit operations that the other files share; no code
--   Crc             Crc32Table, calculateCrc32, verifyCrc32, appendCrc32 (safety.hpp)
--   Sequence        SequenceGenerator, SequenceValidator (safety.hpp)
--   Watchdog        Watchdog (safety.hpp)
--   Failsafe        FailsafeState, FailsafeManager (safety.hpp)
--   Redundancy      ChannelHealth, RedundancyManager (safety.hpp)
--   Checks          isValidMessageSize and the other checks, SafeFrameHeader, BoundedValue (safety.hpp)
--   Arith           safeAdd, safeSub, safeMul, safeDiv (do178c.hpp)
--   Buffer          FixedBuffer, BoundedCounter (do178c.hpp)
--   Memory          COMM_BOUNDED_FOR, COMM_BOUNDED_WHILE, safeCopy, safeSet (do178c.hpp)
--   Transport       config.hpp, error.hpp, utils.hpp: enumerations, statistics, saturating counters, and the
--                   names of errors in `Transport.Errors`
--   Mixin           SafetyMixin (safety_mixin.hpp)
--   Pcan            PCANBasic (include/comm/can/pcan_basic.hpp, src/can/pcan_basic.cpp), and in
--                   `Pcan.Unsupported` its build without the library
--   Posix           the calls of the operating system, a parameter, what is assumed of them, and the options
--                   and end points that the socket transports share; Posix.Sample is a small kernel for tests
--   Transport.Link  the statistics, health, callbacks and thread flags of the four transports below
--   SocketCan       SocketCAN (include/comm/can/socketcan.hpp, src/can/socketcan.cpp)
--   Tcp             TCP (include/comm/ethernet/tcp.hpp, src/ethernet/tcp.cpp)
--   Udp             UDP (include/comm/ethernet/udp.hpp, src/ethernet/udp.cpp)
--   Serial          SerialPort (include/comm/serial/serial_port.hpp, src/serial/serial_port.cpp)
--   Interface       ICommunication (include/comm/core/interface.hpp): the calls that move data, what they promise
--                   to a client, and the transports that keep it; each has a `Contract` of its own
--   Callback        CallbackRegistry (include/comm/core/callback.hpp)
--   Assert          the levels and assertions, NotNull, safeDeref, isValidEnum (do178c.hpp)
--   Defaults        defaults.hpp, Config (config.hpp) and the default configurations of the transports
--
-- How code and model correspond. An object is a record of its fields, an operation a function from the
-- state before to the result and the state after. Names are the source's in another spelling:
-- `reportFault` is `report_fault`. Machine integers are natural numbers with their wrap-around written
-- out; signed arithmetic is over the integers with the bounds of the type. A reading of the clock is an
-- argument, in the unit of the reading. The PCAN-Basic library and the operating system are records of
-- functions on an unknown state; a failed system call gives its error number. `Posix.Lawful` states which
-- descriptors each call opens and closes, `Tcp.Transfer.Stream` that `send` takes a first part of the bytes
-- and that only so many signals interrupt it. A round of a receive thread or of the health monitor is one
-- step; sequences of steps are lists (`SocketCan.Calls`) or the step relations of `Tcp.Steps`, `Udp.Steps` and
-- `Serial.Steps`. `SocketCan.Threads` cuts `SocketCAN::send` at its locks and lets any number of threads take
-- turns in any order; `Callback` does so for `notify`. A failed assertion calls a handler and then loops
-- forever: in PCANBasic such a call gives `none`, as in the default build.
--
-- Bounds. Every loop but one is structural: over the bytes of a buffer, over the rounds that the bound of the
-- source's own loop allows, or over the three attempts of recovery. The loop of TCP's `send` runs on fuel:
-- as much as the bytes to send and the signals that may still interrupt it is enough.
--
-- Not modelled: the waits between attempts and rounds, the texts of errors but for the names of code, category
-- and severity, and the macros for coverage and traceability, which compute nothing. Mutexes are left out but
-- for the serial port's, whose `open` locks its own a second time, and for the two components cut at their
-- locks; elsewhere a call is one step. SocketCAN is built with CAN FD. Fields and constants that no code reads
-- are left out of the transports' configurations. A read past the end of a block is zero and a write there
-- changes nothing, where the source's behaviour is undefined.
pub mod Prelude
pub mod Bits
pub mod Crc
pub mod Sequence
pub mod Watchdog
pub mod Failsafe
pub mod Redundancy
pub mod Checks
pub mod Arith
pub mod Buffer
pub mod Memory
pub mod Transport
pub mod Mixin
pub mod Pcan
pub mod Posix
pub mod SocketCan
pub mod Tcp
pub mod Udp
pub mod Serial
pub mod Interface
pub mod Callback
pub mod Assert
pub mod Defaults
