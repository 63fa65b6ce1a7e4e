-- ===== src/Tcp/Connection/Descriptors.antt =====
-- Which descriptors a TCP object holds, and what becomes of a new one until the object holds it.
use com_lib.Posix.{Os}
use com_lib.Posix.Lawful.{IsLawful, remove}
use com_lib.Posix.Options.{set_options-descriptors, set_nonblocking-descriptors}
use com_lib.Tcp.Defs.{SocketHandle, Tcp, report_error}
use com_lib.Tcp.Connection.{
  close_socket, close_if_open, destroy, reset_handle, close_handle_socket, close_active_socket,
  drop_client_connection, reset_server_connection, configure_socket, after_bind, bind_local,
  after_connect, connect_remote, guarded, prepared,
}
use com_lib.Prelude.{ℕ, Bool, true, false, List, [], ◌∷◌, ◌++◌, Option, none, some, ◌≡◌, arith}

abbrev pub fds : Option ℕ → List ℕ
fds none = []
fds (some fd) = fd ∷ []

abbrev pub held : Option SocketHandle → List ℕ
held none = []
held (some h) = fds h.socket ++ fds h.listen

abbrev pub connection : Option SocketHandle → Option ℕ
connection none = none
connection (some h) = h.socket

module _ {K : Type 0} (os : Os K) (descriptors : K → List ℕ)
    (lawful : IsLawful os descriptors) where
  module _ (base : List ℕ) where
    -- The kernel has the descriptors of the object open, and those of `base`.
    abbrev pub IsOwner : Tcp K → Type 0
    IsOwner p = descriptors p.kernel ≡ held p.handle ++ base

    pub remove_first : (fd : ℕ) (rest : List ℕ) → remove fd (fd ∷ rest) ≡ rest
    remove_first fd rest = ground arith

    pub close_handle_socket-IsOwner :
        (p : Tcp K) (h : SocketHandle)
        → p.handle ≡ some h
        → IsOwner p
        → IsOwner (close_handle_socket os h p)
    unfolding close_handle_socket
    close_handle_socket-IsOwner p h e own = grind (arith, own, lawful.after_close, remove_first)

    pub close_active_socket-IsOwner : (p : Tcp K) → IsOwner p → IsOwner (close_active_socket os p)
    unfolding close_active_socket close_handle_socket
    close_active_socket-IsOwner p own = grind (arith, own, lawful.after_close, remove_first)

    pub drop_client_connection-IsOwner :
        (p : Tcp K) → IsOwner p → IsOwner (drop_client_connection os p)
    unfolding drop_client_connection close_handle_socket
    drop_client_connection-IsOwner p own = grind (arith, own, lawful.after_close, remove_first)

    pub reset_server_connection-IsOwner :
        (p : Tcp K) → IsOwner p → IsOwner (reset_server_connection os p)
    unfolding reset_server_connection close_handle_socket
    reset_server_connection-IsOwner p own = grind (arith, own, lawful.after_close, remove_first)

    -- Destroying the handle closes both its descriptors.
    pub reset_handle_closed :
        (p : Tcp K)
        → IsOwner p
        → (descriptors (reset_handle os p).kernel ≡ base) × ((reset_handle os p).handle ≡ none)
    unfolding reset_handle destroy close_if_open
    reset_handle_closed p own = grind (arith, own, lawful.after_close, remove_first)

    -- Besides the descriptors of the object, whose handle is `before`, a new one is open.
    module _ (before : Option SocketHandle) where
      abbrev pub IsPending : ℕ → Tcp K → Type 0
      IsPending sock p = (descriptors p.kernel ≡ sock ∷ (held before ++ base)) × (p.handle ≡ before)

      pub close_socket-IsOwner :
          (sock : ℕ) (p : Tcp K) → IsPending sock p → IsOwner (close_socket os sock p)
      unfolding close_socket
      close_socket-IsOwner sock p h = grind (arith, h, lawful.after_close, remove_first)

      pub configure_socket-IsPending :
          (sock : ℕ) (p : Tcp K) → IsPending sock p → IsPending sock (configure_socket os sock p).1
      unfolding configure_socket
      configure_socket-IsPending sock p h = grind (
        arith,
        h,
        set_options-descriptors os descriptors lawful,
        set_nonblocking-descriptors os descriptors lawful,
      )

      pub bind_local-IsPending :
          (sock : ℕ) (p : Tcp K) → IsPending sock p → IsPending sock (bind_local os sock p).1
      unfolding bind_local after_bind report_error
      bind_local-IsPending sock p h = grind (arith, h, lawful.after_bind)

      pub connect_remote-IsPending :
          (sock : ℕ) (p : Tcp K) → IsPending sock p → IsPending sock (connect_remote os sock p).1
      unfolding connect_remote after_connect report_error
      connect_remote-IsPending sock p h = grind (arith, h, lawful.after_connect)

      pub guarded-IsOwner :
          (sock : ℕ) (r : Bool × Tcp K) (next : Tcp K → Bool × Tcp K)
          → IsPending sock r.1
          → ((q : Tcp K) → IsPending sock q → IsOwner (next q).1)
          → IsOwner (guarded os sock r next).1
      unfolding guarded
      guarded-IsOwner sock (true, p) next h sound = sound p h
      guarded-IsOwner sock (false, p) next h sound = close_socket-IsOwner sock p h

      pub prepared-IsOwner :
          (sock : ℕ) (p : Tcp K) (next : Tcp K → Bool × Tcp K)
          → IsPending sock p
          → ((q : Tcp K) → IsPending sock q → IsOwner (next q).1)
          → IsOwner (prepared os sock p next).1
      unfolding prepared
      prepared-IsOwner sock p next h sound =
          guarded-IsOwner sock (configure_socket os sock p)
            (λ p'. guarded os sock (bind_local os sock p') next)
            (configure_socket-IsPending sock p h)
            (λ q hq.
              guarded-IsOwner sock (bind_local os sock q) next (bind_local-IsPending sock q hq)
                sound)
