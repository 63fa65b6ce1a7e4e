-- ===== src/Tcp/Reconnect.antt =====
-- `ensureConnected`: a client's new connection, a server's next peer. The wait before a client's attempt
-- is left out.
pub mod Descriptors
use com_lib.Posix.{Os, Answer, done, failed, is_again, stream}
use com_lib.Transport.{ErrorCode, open_failed, not_open, receive_failed}
use com_lib.Tcp.Defs.{SocketHandle, Tcp, report_error, set_healthy}
use com_lib.Tcp.Connection.{
  is_interrupted, close_socket, close_if_open, configure_socket, connect_remote, guarded, prepared,
}
use com_lib.Prelude.{ℕ, Bool, true, false, ◌||◌, not, Option, none, some, ◌==◌, if◌then◌else◌}

-- `fd == listenSocket`
abbrev pub is_descriptor : ℕ → Option ℕ → Bool
is_descriptor fd none = false
is_descriptor fd (some fd') = fd' == fd

module _ {K : Type 0} (os : Os K) where
  -- The handle's socket, closed if it is open, gives way to the new one.
  unfoldable pub adopt : ℕ → SocketHandle → Tcp K → Tcp K
  unfolding close_if_open set_healthy
  adopt sock h p = set_healthy true (record p {
    kernel = close_if_open os h.socket p.kernel;
    handle = some (record h { socket = some sock });
  })

  unfoldable pub adopt_client : ℕ → Tcp K → Bool × Tcp K
  unfolding adopt close_socket
  adopt_client sock p = elim p.handle [
    | none ↦ (false, close_socket os sock p)
    | some h ↦ if h.server then (false, close_socket os sock p) else (true, adopt sock h p)
  ]

  unfoldable pub adopt_peer : ℕ → ℕ → Tcp K → Bool × Tcp K
  unfolding adopt close_socket
  adopt_peer listen_socket peer p = elim p.handle [
    | none ↦ (false, close_socket os peer p)
    | some h ↦
        if not (is_descriptor listen_socket h.listen)
        then (false, close_socket os peer p)
        else (true, adopt peer h p)
  ]

  unfoldable pub after_create : Answer ℕ × K → Tcp K → Bool × Tcp K
  unfolding prepared guarded connect_remote adopt_client
  after_create (failed e, k) p = (false, report_error open_failed (record p { kernel = k }))
  after_create (done sock, k) p =
      prepared os sock (record p { kernel = k })
        (λ p'. guarded os sock (connect_remote os sock p') (adopt_client sock))

  unfoldable pub reconnect : Tcp K → Bool × Tcp K
  unfolding after_create
  reconnect p =
      if not p.config.auto_reconnect
      then (false, report_error not_open p)
      else after_create (os.create stream p.kernel) p

  unfoldable pub after_accept : ℕ → Answer ℕ × K → Tcp K → Bool × Tcp K
  unfolding guarded configure_socket adopt_peer
  after_accept listen_socket (failed e, k) p =
      let p' = record p { kernel = k } in
      if is_again e || is_interrupted e
      then (false, p')
      else (false, report_error receive_failed p')
  after_accept listen_socket (done peer, k) p =
      guarded os peer (configure_socket os peer (record p { kernel = k }))
        (adopt_peer listen_socket peer)

  unfoldable pub accept_peer : SocketHandle → Tcp K → Bool × Tcp K
  unfolding after_accept
  accept_peer h p = elim h.listen [
    | none ↦ (false, report_error not_open p)
    | some listen_socket ↦ after_accept listen_socket (os.accept listen_socket p.kernel) p
  ]

  unfoldable pub ensure_connected : Tcp K → Bool × Tcp K
  unfolding reconnect accept_peer
  ensure_connected p = elim p.handle [
    | none ↦ (false, report_error not_open p)
    | some h ↦ elim h.socket [
      | some fd ↦ (true, p)
      | none ↦ if not h.server then reconnect p else accept_peer h p
    ]
  ]
