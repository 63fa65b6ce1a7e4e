-- ===== src/Defaults/Opening.antt =====
-- What objects with the default configurations do.
use com_lib.Posix.{Os, Answer, done, failed, stream}
use com_lib.Posix.Options.{set_options}
use com_lib.Transport.{count_error}
use com_lib.Transport.Counters.{saturating_add-one}
use com_lib.Transport.Link
use com_lib.Transport.Link.{error_result, new_link}
use com_lib.Tcp.Defs as TcpDefs
use com_lib.Tcp.Defs.{Tcp, new_tcp}
use com_lib.Tcp.Connection.{
  socket_options, close_socket, configure_socket, bind_local, connect_remote, guarded, prepared,
}
use com_lib.Tcp.Lifecycle.{launched, created, open_device}
use com_lib.Defaults.Configs.{default_tcp_config, default_serial_config}
use com_lib.Serial.Defs.{Termios, Tty}
use com_lib.Serial.Settings.{clear, to_speed, attributes, deciseconds}
use com_lib.Prelude.{ℕ, false, none, some, ◌≢◌, ==_false, bit_or, ◌≡◌, refl, arith}

module _ {K : Type 0} (os : Os K) where
  -- The system after a socket was set up and closed again, if it was made.
  abbrev pub abandoned : Answer ℕ × K → K
  abandoned (failed e, k) = k
  abandoned (done sock, k) =
      os.close_fd sock (set_options os sock (socket_options default_tcp_config) k)

  created_default :
      (answer : Answer ℕ × K) (k : K)
      → let q = created os answer (new_tcp default_tcp_config k) in
        (q.0 ≡ false)
        × (q.1.handle ≡ none)
        × (q.1.link.healthy ≡ false)
        × (q.1.link.stats.error_count ≡ 1)
        × (q.1.kernel ≡ abandoned answer)
  unfolding created prepared guarded configure_socket bind_local connect_remote close_socket
      launched new_tcp TcpDefs.report_error Link.report_error count_error
  created_default (failed e, k') k = (refl, refl, refl, saturating_add-one 0 (omega arith), refl)
  created_default (done sock, k') k = (refl, refl, refl, saturating_add-one 0 (omega arith), refl)

  -- A TCP object with the default configuration never opens, since it names no remote port: open reports one error and
  -- returns false, with no handle left and the socket closed that it made.
  pub open_device-default_tcp_config :
      (k : K)
      → let q = open_device os (new_tcp default_tcp_config k) in
        (q.0 ≡ false)
        × (q.1.handle ≡ none)
        × (q.1.link.healthy ≡ false)
        × (q.1.link.stats.error_count ≡ 1)
        × (q.1.kernel ≡ abandoned (os.create stream k))
  unfolding open_device new_tcp
  open_device-default_tcp_config k = created_default (os.create stream k) k

-- The default serial settings are supported: 115200 baud with 8 data bits, no parity, one stop bit, no flow
-- control, and reads that wait five tenths of a second.
attributes-default_serial_config :
    {K : Type 0} (os : Tty K) (raw : Termios)
    → os.b115200 ≢ 0
    → attributes os default_serial_config raw
      ≡ some (record {
        cflag =
            clear
              (clear
                (clear (bit_or (clear raw.cflag os.csize) os.cs8) (bit_or os.parenb os.parodd))
                os.cstopb)
              os.crtscts;
        iflag = clear raw.iflag (bit_or os.ixon (bit_or os.ixoff os.ixany));
        input_speed = os.b115200;
        output_speed = os.b115200;
        vmin = 0;
        vtime = 5;
      })
unfolding attributes to_speed deciseconds
attributes-default_serial_config os raw h = rw (==_false os.b115200 0 h) refl
