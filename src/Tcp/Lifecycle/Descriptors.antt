-- ===== src/Tcp/Lifecycle/Descriptors.antt =====
-- Opening, closing and configuring leak no descriptor, whatever their outcome.
use com_lib.Posix.{Os, Answer, done, failed, stream}
use com_lib.Posix.Lawful.{IsLawful, opened}
use com_lib.Tcp.Defs.{TcpConfig, Tcp, report_error, set_healthy, is_server, is_open}
use com_lib.Tcp.Connection.{after_listen, connect_remote, prepared}
use com_lib.Tcp.Connection.Descriptors.{
  IsOwner, IsPending, guarded-IsOwner, prepared-IsOwner, connect_remote-IsPending,
  close_active_socket-IsOwner, reset_handle_closed,
}
use com_lib.Tcp.Lifecycle.{
  start_receive_loop, stop_receive_loop, established, launched, created, open_device, close,
  configure, set_receive_callback,
}
use com_lib.Prelude.{ℕ, Bool, true, false, List, none, ◌≡◌, ◌∙◌, arith}

module _ {K : Type 0} (os : Os K) (descriptors : K → List ℕ)
    (lawful : IsLawful os descriptors) where
  module _ (base : List ℕ) where
    abbrev Owner : Tcp K → Type 0
    Owner p = IsOwner os descriptors lawful base p

    abbrev Pending : ℕ → Tcp K → Type 0
    Pending sock p = IsPending os descriptors lawful base none sock p

    start_receive_loop-IsOwner : (p : Tcp K) → Owner p → Owner (start_receive_loop os p)
    unfolding start_receive_loop
    start_receive_loop-IsOwner p own = grind (arith, own)

    stop_receive_loop-IsOwner : (p : Tcp K) → Owner p → Owner (stop_receive_loop os p)
    unfolding stop_receive_loop
    stop_receive_loop-IsOwner p own =
        grind (arith, own, close_active_socket-IsOwner os descriptors lawful base)

    after_listen-IsPending :
        (sock : ℕ) (r : Answer (Unit {0}) × K) (p : Tcp K)
        → descriptors r.1 ≡ descriptors p.kernel
        → Pending sock p
        → Pending sock (after_listen os r p).1
    unfolding after_listen report_error
    after_listen-IsPending sock (failed e, k) p same h = (same ∙ h.0, h.1)
    after_listen-IsPending sock (done u, k) p same h = (same ∙ h.0, h.1)

    established-IsOwner :
        (server : Bool) (sock : ℕ) (p : Tcp K)
        → Pending sock p
        → Owner (established os server sock p).1
    unfolding established set_healthy
    established-IsOwner true sock p h =
        guarded-IsOwner os descriptors lawful base none sock
          (after_listen os (os.listen sock p.config.listen_backlog p.kernel) p) _
          (after_listen-IsPending sock (os.listen sock p.config.listen_backlog p.kernel) p
            (lawful.after_listen sock p.config.listen_backlog p.kernel) h)
          (λ q hq. hq.0)
    established-IsOwner false sock p h =
        guarded-IsOwner os descriptors lawful base none sock (connect_remote os sock p) _
          (connect_remote-IsPending os descriptors lawful base none sock p h) (λ q hq. hq.0)

    launched-IsOwner : (r : Bool × Tcp K) → Owner r.1 → Owner (launched os r).1
    unfolding launched
    launched-IsOwner (true, p) own = grind (arith, own, start_receive_loop-IsOwner p own)
    launched-IsOwner (false, p) own = own

    created-IsOwner :
        (r : Answer ℕ × K) (p : Tcp K)
        → descriptors r.1 ≡ opened r.0 (descriptors p.kernel)
        → p.handle ≡ none
        → Owner p
        → Owner (created os r p).1
    unfolding created report_error
    created-IsOwner (failed e, k) p new closed own = new ∙ own
    created-IsOwner (done sock, k) p new closed own =
        launched-IsOwner (prepared os sock (record p { kernel = k }) next) (
          prepared-IsOwner os descriptors lawful base none sock (record p { kernel = k }) next
            (grind (arith, new, own, closed), closed)
            (λ q hq. established-IsOwner (is_server q.config.role) sock q hq))
      where
        next : Tcp K → Bool × Tcp K
        next q = established os (is_server q.config.role) sock q

    pub open_device-IsOwner : (p : Tcp K) → Owner p → Owner (open_device os p).1
    unfolding open_device
    open_device-IsOwner p own = grind (
      arith,
      own,
      created-IsOwner (os.create stream p.kernel) p (lawful.after_create stream p.kernel),
    )

    -- Closing leaves open what was open before the object was, and nothing else.
    pub close_closed :
        (p : Tcp K)
        → Owner p
        → (descriptors (close os p).1.kernel ≡ base) × (is_open (close os p).1 ≡ false)
    unfolding close
    close_closed p own = grind (
      arith,
      reset_handle_closed os descriptors lawful base (stop_receive_loop os p)
          (stop_receive_loop-IsOwner p own),
    )

    pub close-IsOwner : (p : Tcp K) → Owner p → Owner (close os p).1
    unfolding close
    close-IsOwner p own = grind (
      arith,
      reset_handle_closed os descriptors lawful base (stop_receive_loop os p)
          (stop_receive_loop-IsOwner p own),
    )

    pub configure-IsOwner :
        (p : Tcp K) (config : TcpConfig) → Owner p → Owner (configure os p config).1
    unfolding configure
    configure-IsOwner p config own = grind (
      arith,
      own,
      stop_receive_loop-IsOwner (record p { config = config }) own,
      start_receive_loop-IsOwner (record p { config = config }) own,
      open_device-IsOwner _ (close-IsOwner (record p { config = config }) own),
    )

    pub set_receive_callback-IsOwner :
        (p : Tcp K) (present : Bool) → Owner p → Owner (set_receive_callback os p present)
    unfolding set_receive_callback
    set_receive_callback-IsOwner p present own = grind (
      arith,
      own,
      start_receive_loop-IsOwner
          (record p { link = record p.link { has_receive_callback = present } }) own,
    )
