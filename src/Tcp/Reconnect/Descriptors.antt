-- ===== src/Tcp/Reconnect/Descriptors.antt =====
-- `ensureConnected` leaks no descriptor, whatever its outcome.
use com_lib.Posix.{Os, Answer, done, failed, stream}
use com_lib.Posix.Lawful.{IsLawful, opened}
use com_lib.Tcp.Defs.{SocketHandle, Tcp, report_error, set_healthy}
use com_lib.Tcp.Connection.{close_socket, close_if_open, configure_socket, connect_remote, guarded}
use com_lib.Tcp.Connection.Descriptors.{
  connection, IsOwner, IsPending, remove_first, guarded-IsOwner, prepared-IsOwner,
  configure_socket-IsPending, connect_remote-IsPending,
}
use com_lib.Tcp.Reconnect.{
  adopt, adopt_client, adopt_peer, after_create, reconnect, after_accept, accept_peer,
  ensure_connected,
}
use com_lib.Prelude.{ℕ, List, ◌∷◌, Option, none, ◌≡◌, refl, ap, ◌∙◌, arith}

module _ {K : Type 0} (os : Os K) (descriptors : K → List ℕ)
    (lawful : IsLawful os descriptors) where
  module _ (base : List ℕ) where
    abbrev Owner : Tcp K → Type 0
    Owner p = IsOwner os descriptors lawful base p

    abbrev Pending : Option SocketHandle → ℕ → Tcp K → Type 0
    Pending before sock p = IsPending os descriptors lawful base before sock p

    adopt_client-IsOwner :
        (before : Option SocketHandle) (sock : ℕ) (p : Tcp K)
        → connection before ≡ none
        → Pending before sock p
        → Owner (adopt_client os sock p).1
    unfolding adopt_client adopt close_socket close_if_open set_healthy
    adopt_client-IsOwner before sock p free h =
        grind (arith, h, lawful.after_close, remove_first os descriptors lawful base)

    adopt_peer-IsOwner :
        (before : Option SocketHandle) (listen_socket peer : ℕ) (p : Tcp K)
        → connection before ≡ none
        → Pending before peer p
        → Owner (adopt_peer os listen_socket peer p).1
    unfolding adopt_peer adopt close_socket close_if_open set_healthy
    adopt_peer-IsOwner before listen_socket peer p free h =
        grind (arith, h, lawful.after_close, remove_first os descriptors lawful base)

    after_create-IsOwner :
        (r : Answer ℕ × K) (p : Tcp K)
        → descriptors r.1 ≡ opened r.0 (descriptors p.kernel)
        → connection p.handle ≡ none
        → Owner p
        → Owner (after_create os r p).1
    unfolding after_create report_error
    after_create-IsOwner (failed e, k) p new free own = new ∙ own
    after_create-IsOwner (done sock, k) p new free own =
        prepared-IsOwner os descriptors lawful base p.handle sock (record p { kernel = k })
          (λ p'. guarded os sock (connect_remote os sock p') (adopt_client os sock))
          (new ∙ ap (λ l. sock ∷ l) own, refl)
          (λ q hq.
            guarded-IsOwner os descriptors lawful base p.handle sock (connect_remote os sock q)
              (adopt_client os sock)
              (connect_remote-IsPending os descriptors lawful base p.handle sock q hq)
              (λ q'. adopt_client-IsOwner p.handle sock q' free))

    after_accept-IsOwner :
        (listen_socket : ℕ) (r : Answer ℕ × K) (p : Tcp K)
        → descriptors r.1 ≡ opened r.0 (descriptors p.kernel)
        → connection p.handle ≡ none
        → Owner p
        → Owner (after_accept os listen_socket r p).1
    unfolding after_accept report_error
    after_accept-IsOwner listen_socket (failed e, k) p new free own = grind (arith, new, own)
    after_accept-IsOwner listen_socket (done peer, k) p new free own =
        guarded-IsOwner os descriptors lawful base p.handle peer
          (configure_socket os peer (record p { kernel = k })) (adopt_peer os listen_socket peer)
          (configure_socket-IsPending os descriptors lawful base p.handle peer
            (record p { kernel = k }) (new ∙ ap (λ l. peer ∷ l) own, refl))
          (λ q. adopt_peer-IsOwner p.handle listen_socket peer q free)

    pub ensure_connected-IsOwner : (p : Tcp K) → Owner p → Owner (ensure_connected os p).1
    unfolding ensure_connected reconnect accept_peer report_error
    ensure_connected-IsOwner p own = grind (
      arith,
      own,
      after_create-IsOwner (os.create stream p.kernel) p (lawful.after_create stream p.kernel),
      after_accept-IsOwner,
      lawful.after_accept,
    )
