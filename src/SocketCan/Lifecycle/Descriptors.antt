-- ===== src/SocketCan/Lifecycle/Descriptors.antt =====
-- Which descriptors a SocketCAN object holds.
use com_lib.Posix.{Os, Answer, done, failed, raw_can}
use com_lib.Posix.Lawful.{IsLawful, remove, opened}
use com_lib.Posix.Options.{set_options, set_options-descriptors}
use com_lib.Transport.{open_failed}
use com_lib.SocketCan.Defs.{
  SocketCanConfig, CanFrame, SocketCan, report_error, record_send, record_receive, set_healthy,
  start_receive_loop, stop_receive_loop, is_open,
}
use com_lib.SocketCan.Transfer.{
  after_write, send, after_read, receive, after_frame, read_frame, after_frame_write, write_frame,
}
use com_lib.SocketCan.Lifecycle.{
  name_limit, open_options, after_filters, apply_filters, drop_socket, finish_open, filtered, bound,
  resolved, created, open_device, close, configure, set_receive_callback,
}
use com_lib.Prelude.{
  ℕ, Bool, true, false, not, List, [], ◌∷◌, ◌++◌, Option, none, some, take, is_empty, if◌then◌else◌,
  ◌≡◌, ◌∙◌, arith,
}

abbrev pub held : Option ℕ → List ℕ
held none = []
held (some fd) = fd ∷ []

module _ {K : Type 0} (os : Os K) (descriptors : K → List ℕ)
    (lawful : IsLawful os descriptors) where
  -- The kernel has the descriptors of the object open, and those of `base`.
  abbrev pub IsOwner : List ℕ → SocketCan K → Type 0
  IsOwner base p = descriptors p.kernel ≡ held p.socket ++ base

  module _ (base : List ℕ) where
    remove_first : (fd : ℕ) (rest : List ℕ) → remove fd (fd ∷ rest) ≡ rest
    remove_first fd rest = ground arith

    drop_socket-IsOwner : (p : SocketCan K) → IsOwner base p → IsOwner base (drop_socket os p)
    unfolding drop_socket
    drop_socket-IsOwner p h = grind (arith, h, lawful.after_close, remove_first)

    after_filters-IsOwner :
        (r : Answer (Unit {0}) × K) (p : SocketCan K)
        → descriptors r.1 ≡ descriptors p.kernel
        → IsOwner base p
        → IsOwner base (after_filters os r p).1
    unfolding after_filters report_error
    after_filters-IsOwner (failed e, k) p same h = same ∙ h
    after_filters-IsOwner (done u, k) p same h = same ∙ h

    apply_filters-IsOwner : (p : SocketCan K) → IsOwner base p → IsOwner base (apply_filters os p).1
    unfolding apply_filters
    apply_filters-IsOwner p h = grind (arith, h, lawful.after_option, after_filters-IsOwner)

    finish_open-IsOwner : (p : SocketCan K) → IsOwner base p → IsOwner base (finish_open os p).1
    unfolding finish_open set_healthy start_receive_loop
    finish_open-IsOwner p h = ground (arith, h)

    filtered-IsOwner : (r : Bool × SocketCan K) → IsOwner base r.1 → IsOwner base (filtered os r).1
    unfolding filtered
    filtered-IsOwner (true, p) h = finish_open-IsOwner p h
    filtered-IsOwner (false, p) h = drop_socket-IsOwner p h

    with_filters-IsOwner :
        (p : SocketCan K)
        → IsOwner base p
        → IsOwner base
            (if not (is_empty p.config.filters)
              then filtered os (apply_filters os p)
              else finish_open os p).1
    with_filters-IsOwner p h = grind (
      arith,
      finish_open-IsOwner p h,
      filtered-IsOwner (apply_filters os p) (apply_filters-IsOwner p h),
    )

    bound-IsOwner :
        (fd : ℕ) (r : Answer (Unit {0}) × K) (p : SocketCan K)
        → descriptors r.1 ≡ descriptors p.kernel
        → IsOwner base p
        → IsOwner base (bound os fd r p).1
    unfolding bound report_error
    bound-IsOwner fd (failed e, k) p same h =
        drop_socket-IsOwner (report_error open_failed (record p { kernel = k })) (same ∙ h)
    bound-IsOwner fd (done u, k) p same h =
        with_filters-IsOwner (record p { kernel = set_options os fd (open_options p.config) k })
          (set_options-descriptors os descriptors lawful fd (open_options p.config) k ∙ same ∙ h)

    resolved-IsOwner :
        (fd : ℕ) (r : Answer ℕ × K) (p : SocketCan K)
        → descriptors r.1 ≡ descriptors p.kernel
        → IsOwner base p
        → IsOwner base (resolved os fd r p).1
    unfolding resolved report_error
    resolved-IsOwner fd (failed e, k) p same h =
        drop_socket-IsOwner (report_error open_failed (record p { kernel = k })) (same ∙ h)
    resolved-IsOwner fd (done index, k) p same h =
        bound-IsOwner fd (os.bind_interface fd index k) p
          (lawful.after_bind_interface fd index k ∙ same) h

    created-IsOwner :
        (r : Answer ℕ × K) (p : SocketCan K)
        → p.socket ≡ none
        → descriptors r.1 ≡ opened r.0 (descriptors p.kernel)
        → IsOwner base p
        → IsOwner base (created os r p).1
    unfolding created report_error
    created-IsOwner (failed e, k) p closed same h = same ∙ h
    created-IsOwner (done fd, k) p closed same h =
        resolved-IsOwner fd (os.interface_index fd (take name_limit p.config.interface) k)
          (record p { socket = some fd; kernel = k })
          (lawful.after_index fd (take name_limit p.config.interface) k)
          (grind (arith, h, same, closed))

    pub open_device-IsOwner : (p : SocketCan K) → IsOwner base p → IsOwner base (open_device os p).1
    unfolding open_device
    open_device-IsOwner p h = grind (
      arith,
      h,
      created-IsOwner (os.create raw_can p.kernel) p,
      lawful.after_create raw_can p.kernel,
    )

    pub close-IsOwner : (p : SocketCan K) → IsOwner base p → IsOwner base (close os p).1
    unfolding close stop_receive_loop
    close-IsOwner p h = drop_socket-IsOwner (stop_receive_loop p) h

    pub configure-IsOwner :
        (p : SocketCan K) (config : SocketCanConfig)
        → IsOwner base p
        → IsOwner base (configure os p config).1
    unfolding configure
    configure-IsOwner p config h =
        grind (arith, h, apply_filters-IsOwner (record p { config = config }) h)

    pub set_receive_callback-IsOwner :
        (p : SocketCan K) (present : Bool)
        → IsOwner base p
        → IsOwner base (set_receive_callback os p present)
    unfolding set_receive_callback start_receive_loop
    set_receive_callback-IsOwner p present h = grind (arith, h)

    pub send-IsOwner :
        (p : SocketCan K) (bytes : List ℕ) → IsOwner base p → IsOwner base (send os p bytes).1
    unfolding send after_write report_error record_send
    send-IsOwner p bytes h = grind (arith, h, lawful.after_write)

    pub receive-IsOwner :
        (p : SocketCan K) (buffer : List ℕ) (max_size : ℕ)
        → IsOwner base p
        → IsOwner base (receive os p buffer max_size).2
    unfolding receive after_read report_error record_receive set_healthy
    receive-IsOwner p buffer max_size h = grind (arith, h, lawful.after_read)

    pub read_frame-IsOwner : (p : SocketCan K) → IsOwner base p → IsOwner base (read_frame os p).1
    unfolding read_frame after_frame
    read_frame-IsOwner p h = grind (arith, h, lawful.after_read)

    pub write_frame-IsOwner :
        (p : SocketCan K) (f : CanFrame) → IsOwner base p → IsOwner base (write_frame os p f).1
    unfolding write_frame after_frame_write report_error record_send
    write_frame-IsOwner p f h = grind (arith, h, lawful.after_write)

    pub drop_socket_closed :
        (p : SocketCan K)
        → IsOwner base p
        → (descriptors (drop_socket os p).kernel ≡ base) × (is_open (drop_socket os p) ≡ false)
    unfolding drop_socket
    drop_socket_closed p h = grind (arith, h, lawful.after_close, remove_first)
