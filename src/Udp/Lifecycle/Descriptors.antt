-- ===== src/Udp/Lifecycle/Descriptors.antt =====
-- Opening, closing, configuring and rebinding leak no descriptor, whatever their outcome.
use com_lib.Posix.{Os, Answer, done, failed, datagram}
use com_lib.Posix.Lawful.{IsLawful, Fresh, remove, opened}
use com_lib.Posix.Options.{set_options-descriptors, set_nonblocking-descriptors}
use com_lib.Udp.Defs.{UdpConfig, UdpHandle, Udp, report_error, set_healthy, is_open}
use com_lib.Udp.Setup.{
  reset_handle, configure_socket, after_bind, bind_socket, after_join, join_multicast_group,
}
use com_lib.Udp.Lifecycle.{
  start_receive_loop, shut_down, stop_receive_loop, schedule_health_check, stop_health_monitor,
  guarded, joined, launched, created, open_device, close, reconfigured, configure,
  set_receive_callback, close_handle_socket, attempt_rebind, monitor_round,
}
use com_lib.Prelude.{
  ℕ, Bool, true, false, not, List, [], ◌∷◌, ◌++◌, Option, none, some, if◌then◌else◌, ◌≡◌, subst, ap,
  ◌∙◌, arith,
}

abbrev pub held : Option UdpHandle → List ℕ
held none = []
held (some h) = h.socket ∷ []

-- The object's descriptor is not among these.
abbrev pub Apart : Option UdpHandle → List ℕ → Type 0
Apart none fds = Unit
Apart (some h) fds = remove h.socket fds ≡ fds

module _ {K : Type 0} (os : Os K) (descriptors : K → List ℕ)
    (lawful : IsLawful os descriptors) where
  module _ (base : List ℕ) where
    -- The kernel has the descriptor of the object open, and those of `base`, which are others.
    abbrev pub IsOwner : Udp K → Type 0
    IsOwner p = (descriptors p.kernel ≡ held p.handle ++ base) × Apart p.handle base

    remove_first : (fd : ℕ) (rest : List ℕ) → remove fd (fd ∷ rest) ≡ rest
    remove_first fd rest = ground arith

    reset_handle_closed :
        (p : Udp K)
        → IsOwner p
        → (descriptors (reset_handle os p).kernel ≡ base) × ((reset_handle os p).handle ≡ none)
    unfolding reset_handle
    reset_handle_closed p own = grind (arith, own, lawful.after_close, remove_first)

    reset_handle-IsOwner : (p : Udp K) → IsOwner p → IsOwner (reset_handle os p)
    unfolding reset_handle
    reset_handle-IsOwner p own = grind (arith, own, lawful.after_close, remove_first)

    configure_socket-IsOwner : (p : Udp K) → IsOwner p → IsOwner (configure_socket os p).1
    unfolding configure_socket
    configure_socket-IsOwner p own = grind (
      arith,
      own,
      set_options-descriptors os descriptors lawful,
      set_nonblocking-descriptors os descriptors lawful,
    )

    bind_socket-IsOwner : (p : Udp K) → IsOwner p → IsOwner (bind_socket os p).1
    unfolding bind_socket after_bind report_error
    bind_socket-IsOwner p own = grind (arith, own, lawful.after_bind)

    joined-IsOwner : (p : Udp K) → IsOwner p → IsOwner (joined os p).1
    unfolding joined join_multicast_group after_join report_error
    joined-IsOwner p own = grind (arith, own, lawful.after_option)

    guarded-IsOwner :
        (r : Bool × Udp K) (next : Udp K → Bool × Udp K)
        → IsOwner r.1
        → ((q : Udp K) → IsOwner q → IsOwner (next q).1)
        → IsOwner (guarded os r next).1
    unfolding guarded
    guarded-IsOwner (true, p) next own sound = sound p own
    guarded-IsOwner (false, p) next own sound = reset_handle-IsOwner p own

    start_receive_loop-IsOwner : (p : Udp K) → IsOwner p → IsOwner (start_receive_loop os p)
    unfolding start_receive_loop
    start_receive_loop-IsOwner p own = grind (arith, own)

    stop_receive_loop-IsOwner : (p : Udp K) → IsOwner p → IsOwner (stop_receive_loop os p)
    unfolding stop_receive_loop shut_down
    stop_receive_loop-IsOwner p own = grind (arith, own, lawful.after_shutdown)

    launched-IsOwner : (p : Udp K) → IsOwner p → IsOwner (launched os p).1
    unfolding launched schedule_health_check set_healthy
    launched-IsOwner p own = grind (arith, own, start_receive_loop-IsOwner (set_healthy true p) own)

    created-IsOwner :
        (r : Answer ℕ × K) (p : Udp K)
        → descriptors r.1 ≡ opened r.0 (descriptors p.kernel)
        → Fresh r.0 (descriptors p.kernel)
        → p.handle ≡ none
        → IsOwner p
        → IsOwner (created os r p).1
    unfolding created report_error
    created-IsOwner (failed e, k) p new fresh closed own = (new ∙ own.0, own.1)
    created-IsOwner (done sock, k) p new fresh closed own =
        guarded-IsOwner (configure_socket os with_socket)
          (λ p'. guarded os (bind_socket os p') bound)
          (configure_socket-IsOwner with_socket
            (new ∙ ap (λ l. sock ∷ l) at_first, subst (λ l. remove sock l ≡ l) at_first fresh))
          (λ q hq. guarded-IsOwner (bind_socket os q) bound (bind_socket-IsOwner q hq) (λ q' hq'.
            guarded-IsOwner (joined os q') (launched os) (joined-IsOwner q' hq') launched-IsOwner))
      where
        at_first : descriptors p.kernel ≡ base
        at_first = own.0 ∙ ap (λ h. held h ++ base) closed

        with_socket : Udp K
        with_socket = record p {
          handle = some (record { socket = sock; local = none });
          kernel = k;
        }

        bound : Udp K → Bool × Udp K
        bound q = guarded os (joined os q) (launched os)

    pub open_device-IsOwner : (p : Udp K) → IsOwner p → IsOwner (open_device os p).1
    unfolding open_device
    open_device-IsOwner p own = grind (
      arith,
      own,
      created-IsOwner (os.create datagram p.kernel) p (lawful.after_create datagram p.kernel)
          (lawful.fresh datagram p.kernel),
    )

    stopped-IsOwner :
        (p : Udp K) → IsOwner p → IsOwner (stop_health_monitor os (stop_receive_loop os p))
    unfolding stop_health_monitor
    stopped-IsOwner p own = grind (arith, stop_receive_loop-IsOwner p own)

    pub close-IsOwner : (p : Udp K) → IsOwner p → IsOwner (close os p).1
    unfolding close
    close-IsOwner p own = reset_handle-IsOwner _ (stopped-IsOwner p own)

    -- Closing leaves open what was open before the object was, and nothing else.
    pub close_closed :
        (p : Udp K)
        → IsOwner p
        → (descriptors (close os p).1.kernel ≡ base) × (is_open (close os p).1 ≡ false)
    unfolding close
    close_closed p own = grind (arith, reset_handle_closed _ (stopped-IsOwner p own))

    reconfigured-IsOwner :
        (was_spawning : Bool) (r : Bool × Udp K)
        → IsOwner r.1
        → IsOwner (reconfigured os was_spawning r).1
    unfolding reconfigured
    reconfigured-IsOwner was_spawning (false, p) own = own
    reconfigured-IsOwner was_spawning (true, p) own =
        grind (arith, own, stop_receive_loop-IsOwner p own, start_receive_loop-IsOwner p own)

    pub configure-IsOwner :
        (p : Udp K) (config : UdpConfig) → IsOwner p → IsOwner (configure os p config).1
    unfolding configure
    configure-IsOwner p config own =
        let p' = record p { config = config } in
        grind (
          arith,
          own,
          open_device-IsOwner _ (close-IsOwner p' own),
          reconfigured-IsOwner p.config.spawn_receive_thread (configure_socket os p')
              (configure_socket-IsOwner p' own),
        )

    pub set_receive_callback-IsOwner :
        (p : Udp K) (present : Bool) → IsOwner p → IsOwner (set_receive_callback os p present)
    unfolding set_receive_callback
    set_receive_callback-IsOwner p present own = grind (
      arith,
      own,
      start_receive_loop-IsOwner
          (record p { link = record p.link { has_receive_callback = present } }) own,
    )

    -- The socket is closed twice, the second time without effect.
    closed_twice : (p : Udp K) → IsOwner p → IsOwner (reset_handle os (close_handle_socket os p))
    unfolding reset_handle close_handle_socket
    closed_twice p own = grind (arith, own, lawful.after_close, remove_first)

    unless-IsOwner :
        (skipped : Bool) (p q : Udp K)
        → IsOwner p
        → IsOwner q
        → IsOwner (if not skipped then p else q)
    unless-IsOwner true p q own own' = own'
    unless-IsOwner false p q own own' = own

    attempt_rebind-IsOwner : (p : Udp K) → IsOwner p → IsOwner (attempt_rebind os p)
    unfolding attempt_rebind
    attempt_rebind-IsOwner p own =
        let freed = reset_handle os (close_handle_socket os (stop_receive_loop os p)) in
        unless-IsOwner p.config.auto_rebind p (open_device os freed).1 own
          (open_device-IsOwner freed (closed_twice _ (stop_receive_loop-IsOwner p own)))

    pub monitor_round-IsOwner :
        (elapsed : ℕ) (p : Udp K) → IsOwner p → IsOwner (monitor_round os elapsed p)
    unfolding monitor_round set_healthy
    monitor_round-IsOwner elapsed p own =
        grind (
          arith,
          own,
          attempt_rebind-IsOwner p own,
          attempt_rebind-IsOwner (set_healthy false p) own,
        )
