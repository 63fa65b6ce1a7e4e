-- ===== src/Interface/Transports.antt =====
-- Which transports keep the promises of the interface, and what a client of them sees.
use com_lib.Posix.{Os}
use com_lib.Interface.{IsAccounted}
use com_lib.SocketCan.Contract.{socket_can, socket_can-IsAccounted}
use com_lib.Interface.Accounts
use com_lib.Interface.Accounts.{Call, AllFit, IsBounded, Accounts, run-link}
use com_lib.SocketCan.Defs.{SocketCan}
use com_lib.Udp.Defs.{Udp}
use com_lib.Serial.Defs.{SerialPort}
use com_lib.Prelude.{List}
use com_lib.Udp.Contract.{udp, udp-IsAccounted}
use com_lib.Serial.Defs.{Tty}
use com_lib.Serial.Contract.{serial_port, serial_port-IsAccounted}

-- SocketCAN, UDP and the serial port keep the promises of the interface over any system. A send counts
-- what it returns, returns zero and changes no statistics, health or callbacks, or returns -1 and reports
-- one error. A receive counts the bytes that it hands over, returns zero and changes none of these, or
-- returns -1 and reports at most one error. Close returns true and leaves the object closed. The
-- destructor closes it and leaves neither a receive thread nor a monitor thread to join, where the monitor
-- thread is there only while its flag is set; send, receive and close keep that so. On a closed object
-- send and receive return -1 and leave it closed. The statistics and the health that can be asked for are
-- those that these calls write.
pub transports-IsAccounted :
    {K T : Type 0} (os : Os K) (tty : Tty T)
    → IsAccounted (socket_can os) × IsAccounted (udp os) × IsAccounted (serial_port tty)
transports-IsAccounted os tty =
    (socket_can-IsAccounted os, udp-IsAccounted os, serial_port-IsAccounted tty)

-- Whatever sends and receives a client makes of a SocketCAN object, of a UDP object and of a serial port, of
-- which no result and no counter at the start is above the largest counter, the statistics after them are those before with the
-- account of the results, up to the largest counter: the bytes sent and received exactly, and the errors
-- at least those of the failed sends and at most all failures.
pub transports-Accounts :
    {K T : Type 0} (os : Os K) (tty : Tty T) (calls : List Call) (a : SocketCan K) (b : Udp K)
    (c : SerialPort T)
    → AllFit (socket_can os) calls a
    → AllFit (udp os) calls b
    → AllFit (serial_port tty) calls c
    → IsBounded a.link.stats
    → IsBounded b.link.stats
    → IsBounded c.link.stats
    → let (totals, a') = Accounts.run (socket_can os) calls a in
      let (totals', b') = Accounts.run (udp os) calls b in
      let (totals'', c') = Accounts.run (serial_port tty) calls c in
      Accounts a.link.stats totals a'.link.stats
      × Accounts b.link.stats totals' b'.link.stats
      × Accounts c.link.stats totals'' c'.link.stats
transports-Accounts os tty calls a b c fit_a fit_b fit_c bound_a bound_b bound_c = (
  run-link (socket_can os) (socket_can-IsAccounted os) calls a fit_a bound_a,
  run-link (udp os) (udp-IsAccounted os) calls b fit_b bound_b,
  run-link (serial_port tty) (serial_port-IsAccounted tty) calls c fit_c bound_c,
)
