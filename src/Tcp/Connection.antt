-- ===== src/Tcp/Connection.antt =====
-- How sockets are made, set up, connected and closed: `open`, `ensureConnected` and what they call.
-- The wait before a new attempt is left out.
pub mod Descriptors
use com_lib.Posix.{
  Os, Answer, done, failed, Errno, interrupted, in_progress, is_again, stream, SocketOption,
  reuse_address, no_delay, keep_alive,
}
use com_lib.Posix.Endpoint.{Endpoint, local_address}
use com_lib.Posix.Options.{timeout_options, set_options, set_nonblocking}
use com_lib.Transport.{ErrorCode, open_failed, invalid_configuration, not_open, receive_failed}
use com_lib.Tcp.Defs.{
  TcpConfig, SocketHandle, Tcp, report_error, set_healthy, is_server, is_some, is_open,
}
use com_lib.Prelude.{
  ℕ, Bool, true, false, ◌&&◌, ◌||◌, not, List, [], ◌∷◌, ◌++◌, Option, none, some, is_empty, ◌==◌,
  if◌then◌else◌,
}

-- The options that `configureSocket` sets, in its order.
unfoldable pub socket_options : TcpConfig → List SocketOption
socket_options c =
    (if c.reuse_address then reuse_address ∷ [] else [])
    ++ (if c.no_delay then no_delay ∷ [] else [])
    ++ (if c.keep_alive then keep_alive ∷ [] else [])
    ++ timeout_options c.receive_timeout c.send_timeout

abbrev pub is_interrupted : Errno → Bool
is_interrupted interrupted = true
is_interrupted _ = false

abbrev pub is_in_progress : Errno → Bool
is_in_progress in_progress = true
is_in_progress _ = false

module _ {K : Type 0} (os : Os K) where
  unfoldable pub close_socket : ℕ → Tcp K → Tcp K
  close_socket sock p = record p { kernel = os.close_fd sock p.kernel }

  -- A descriptor that may be -1.
  unfoldable pub close_if_open : Option ℕ → K → K
  close_if_open none k = k
  close_if_open (some fd) k = os.close_fd fd k

  -- `~SocketHandle`
  unfoldable pub destroy : SocketHandle → K → K
  unfolding close_if_open
  destroy h k = close_if_open h.listen (close_if_open h.socket k)

  -- `handle_.reset()`
  unfoldable pub reset_handle : Tcp K → Tcp K
  unfolding destroy
  reset_handle p = elim p.handle [
    | none ↦ p
    | some h ↦ record p { handle = none; kernel = destroy h p.kernel }
  ]

  -- The part that `closeActiveSocket`, `dropClientConnection` and `resetServerConnection` share.
  unfoldable pub close_handle_socket : SocketHandle → Tcp K → Tcp K
  close_handle_socket h p = elim h.socket [
    | none ↦ p
    | some fd ↦ record p {
      kernel = os.close_fd fd p.kernel;
      handle = some (record h { socket = none });
    }
  ]

  unfoldable pub close_active_socket : Tcp K → Tcp K
  unfolding close_handle_socket
  close_active_socket p = elim p.handle [ none ↦ p | some h ↦ close_handle_socket h p ]

  unfoldable pub drop_client_connection : Tcp K → Tcp K
  unfolding close_handle_socket
  drop_client_connection p = elim p.handle [
    | none ↦ p
    | some h ↦ if not h.server then close_handle_socket h p else p
  ]

  unfoldable pub reset_server_connection : Tcp K → Tcp K
  unfolding close_handle_socket
  reset_server_connection p = elim p.handle [
    | none ↦ p
    | some h ↦ if h.server then close_handle_socket h p else p
  ]

  unfoldable pub configure_socket : ℕ → Tcp K → Bool × Tcp K
  configure_socket sock p =
      let k = if p.config.non_blocking then set_nonblocking os sock p.kernel else p.kernel in
      (true, record p { kernel = set_options os sock (socket_options p.config) k })

  unfoldable pub after_bind : Answer (Unit {0}) × K → Tcp K → Bool × Tcp K
  after_bind (failed e, k) p = (false, report_error open_failed (record p { kernel = k }))
  after_bind (done u, k) p = (true, record p { kernel = k })

  unfoldable pub bind_local : ℕ → Tcp K → Bool × Tcp K
  unfolding after_bind
  bind_local sock p =
      if (p.config.local.port == 0) && is_empty p.config.local.address
      then (true, p)
      else elim (os.parse_address (local_address p.config.local)) [
        | none ↦ (false, report_error invalid_configuration p)
        | some address ↦ after_bind (os.bind sock address p.config.local.port p.kernel) p
      ]

  unfoldable pub after_connect : Answer (Unit {0}) × K → Tcp K → Bool × Tcp K
  after_connect (failed e, k) p =
      let p' = record p { kernel = k } in
      if not (is_in_progress e) then (false, report_error open_failed p') else (true, p')
  after_connect (done u, k) p = (true, record p { kernel = k })

  unfoldable pub connect_remote : ℕ → Tcp K → Bool × Tcp K
  unfolding after_connect
  connect_remote sock p =
      if (p.config.remote.port == 0) || is_empty p.config.remote.address
      then (false, report_error invalid_configuration p)
      else elim (os.parse_address p.config.remote.address) [
        | none ↦ (false, report_error invalid_configuration p)
        | some address ↦ after_connect (os.connect sock address p.config.remote.port p.kernel) p
      ]

  unfoldable pub after_listen : Answer (Unit {0}) × K → Tcp K → Bool × Tcp K
  after_listen (failed e, k) p = (false, report_error open_failed (record p { kernel = k }))
  after_listen (done u, k) p = (true, record p { kernel = k })

  -- `if (!step) { ::close(sock); return false; }` and what follows.
  unfoldable pub guarded : ℕ → Bool × Tcp K → (Tcp K → Bool × Tcp K) → Bool × Tcp K
  unfolding close_socket
  guarded sock (true, p) next = next p
  guarded sock (false, p) next = (false, close_socket sock p)

  -- `configureSocket`, `bindLocal` and what follows, each with the socket closed if it fails.
  unfoldable pub prepared : ℕ → Tcp K → (Tcp K → Bool × Tcp K) → Bool × Tcp K
  unfolding guarded
  prepared sock p next =
      guarded sock (configure_socket sock p) (λ p'. guarded sock (bind_local sock p') next)
