-- ===== src/Tcp/Transfer/Takeover.antt =====
-- How a connection ends, and how a server goes on.
use com_lib.Posix.{Os, done}
use com_lib.Transport.{is_receive_enabled, count_received}
use com_lib.Transport.Link
use com_lib.Tcp.Defs.{SocketHandle, Tcp, record_receive, set_healthy, is_server}
use com_lib.Tcp.Connection.{
  close_if_open, close_handle_socket, drop_client_connection, reset_server_connection,
  configure_socket, guarded,
}
use com_lib.Tcp.Reconnect.{adopt, adopt_peer, after_accept, accept_peer, ensure_connected}
use com_lib.Tcp.Transfer.{disconnect, after_receive, take_in, receive}
use com_lib.Prelude.Int.{pos}
use com_lib.Prelude.{
  ℕ, true, false, List, [], ◌∷◌, none, some, length, ◌==◌, ◌≡◌, refl, sym, ap, ◌∙◌, arith,
}

module _ {K : Type 0} (os : Os K) where
  -- The connection of `p`, of either role, ends: the peer sends no more.
  receive_end :
      (p : Tcp K) (h : SocketHandle) (fd max_size : ℕ) (buffer : List ℕ) (k : K)
      → is_receive_enabled p.config.direction ≡ true
      → (max_size == 0) ≡ false
      → p.handle ≡ some h
      → h.socket ≡ some fd
      → h.server ≡ is_server p.config.role
      → os.receive_bytes fd max_size p.kernel ≡ (done [], k)
      → let (result, received, q) = receive os p buffer max_size in
        (result ≡ pos 0)
        × (received ≡ [])
        × (q.handle ≡ some (record h { socket = none }))
        × (q.kernel ≡ os.close_fd fd k)
        × (q.link.healthy ≡ false)
        × (q.config ≡ p.config)
        × (q.link.stats ≡ p.link.stats)
  unfolding receive take_in ensure_connected after_receive disconnect set_healthy
      reset_server_connection drop_client_connection close_handle_socket
  receive_end p h fd max_size buffer k enabled room opened connected same_role over = ground arith

  -- A server without a peer, to which a peer comes.
  receive_accepted :
      (p : Tcp K) (h : SocketHandle) (listen_socket peer max_size : ℕ) (buffer : List ℕ) (x : ℕ)
      (xs : List ℕ) (k k' : K)
      → is_receive_enabled p.config.direction ≡ true
      → (max_size == 0) ≡ false
      → p.handle ≡ some h
      → h.socket ≡ none
      → h.server ≡ true
      → h.listen ≡ some listen_socket
      → os.accept listen_socket p.kernel ≡ (done peer, k)
      → os.receive_bytes peer max_size (configure_socket os peer (record p { kernel = k })).1.kernel
        ≡ (done (x ∷ xs), k')
      → let (result, received, q) = receive os p buffer max_size in
        (result ≡ pos (length (x ∷ xs)))
        × (received ≡ x ∷ xs)
        × (q.handle ≡ some (record h { socket = some peer }))
        × (q.link.healthy ≡ true)
        × (q.link.stats ≡ count_received (length (x ∷ xs)) p.link.stats)
  unfolding receive take_in ensure_connected after_receive accept_peer after_accept guarded
      configure_socket adopt_peer adopt close_if_open set_healthy record_receive Link.record_receive
  receive_accepted p h listen_socket peer max_size buffer x xs k k' enabled room opened free server
        listening accepted read =
      ground arith

  -- A server that finds its peer gone with one `receive`, and to whose listening socket a new peer comes
  -- that has sent some bytes, receives these bytes with its next `receive`. In between it is unhealthy,
  -- and the descriptor of the old peer is closed.
  pub receive_takeover :
      (p : Tcp K) (h : SocketHandle) (fd listen_socket peer max_size : ℕ) (buffer : List ℕ) (x : ℕ)
      (xs : List ℕ) (k k' k'' : K)
      → is_receive_enabled p.config.direction ≡ true
      → is_server p.config.role ≡ true
      → (max_size == 0) ≡ false
      → p.handle ≡ some h
      → h.socket ≡ some fd
      → h.listen ≡ some listen_socket
      → h.server ≡ true
      → os.receive_bytes fd max_size p.kernel ≡ (done [], k)
      → os.accept listen_socket (os.close_fd fd k) ≡ (done peer, k')
      → let (ended, nothing, q) = receive os p buffer max_size in
        os.receive_bytes peer max_size
            (configure_socket os peer (record q { kernel = k' })).1.kernel
          ≡ (done (x ∷ xs), k'')
        → let (result, received, r) = receive os q buffer max_size in
          (ended ≡ pos 0)
          × (q.kernel ≡ os.close_fd fd k)
          × (q.link.healthy ≡ false)
          × (result ≡ pos (length (x ∷ xs)))
          × (received ≡ x ∷ xs)
          × (r.handle ≡ some (record h { socket = some peer }))
          × (r.link.healthy ≡ true)
          × (r.link.stats ≡ count_received (length (x ∷ xs)) p.link.stats)
  receive_takeover p h fd listen_socket peer max_size buffer x xs k k' k'' enabled role room opened
        connected listening server over accepted read =
      let (ended, nothing, q) = receive os p buffer max_size in
      let (zero_bytes, cleared, kept, closed, ill, same, counted) =
        receive_end p h fd max_size buffer k enabled room opened connected (server ∙ sym role)
          over in
      let (result, received, handle, healthy, stats) =
        receive_accepted q (record h { socket = none }) listen_socket peer max_size buffer x xs k'
          k'' (ap (λ c. is_receive_enabled c.direction) same ∙ enabled) room kept refl server
          listening (ap (os.accept listen_socket) closed ∙ accepted) read in
      (
        zero_bytes,
        closed,
        ill,
        result,
        received,
        handle,
        healthy,
        stats ∙ ap (count_received (length (x ∷ xs))) counted,
      )
