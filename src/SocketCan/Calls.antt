-- ===== src/SocketCan/Calls.antt =====
-- A SocketCAN object under calls of its interface and rounds of its receive thread, in any order.
use com_lib.Posix.{Os}
use com_lib.Posix.Lawful.{IsLawful}
use com_lib.SocketCan.Defs.{
  SocketCanConfig, CanFrame, SocketCan, payload_limit, stop_receive_loop, is_open, new_socket_can,
}
use com_lib.SocketCan.Transfer.{send, receive, receive_round, read_frame, write_frame}
use com_lib.SocketCan.Lifecycle.{
  open_device, close, configure, set_receive_callback, set_error_callback,
}
use com_lib.SocketCan.Lifecycle.Descriptors.{
  IsOwner, drop_socket_closed, open_device-IsOwner, close-IsOwner, configure-IsOwner,
  set_receive_callback-IsOwner, send-IsOwner, receive-IsOwner, read_frame-IsOwner,
  write_frame-IsOwner,
}
use com_lib.Prelude.{ℕ, Bool, true, false, List, [], ◌∷◌, if◌then◌else◌, ◌≡◌}

-- A call of the object's interface, or a round of its receive thread.
pub data Call : Type 0 where
  opening closing reading thread_round : Call
  configuring : SocketCanConfig → Call
  receive_callback error_callback : Bool → Call
  sending : List ℕ → Call
  receiving : List ℕ → ℕ → Call
  writing : CanFrame → Call

module _ {K : Type 0} (os : Os K) where
  unfoldable pub perform : Call → SocketCan K → SocketCan K
  perform opening p = (open_device os p).1
  perform closing p = (close os p).1
  perform thread_round p = if p.link.running then (receive_round os p).1 else p
  perform reading p = (read_frame os p).1
  perform (configuring config) p = (configure os p config).1
  perform (receive_callback present) p = set_receive_callback os p present
  perform (error_callback present) p = set_error_callback os p present
  perform (sending bytes) p = (send os p bytes).1
  perform (receiving buffer max_size) p = (receive os p buffer max_size).2
  perform (writing frame) p = (write_frame os p frame).1

  unfoldable pub run : List Call → SocketCan K → SocketCan K
  unfolding perform
  run [] p = p
  run (c ∷ rest) p = run rest (perform c p)

module _ {K : Type 0} (os : Os K) (descriptors : K → List ℕ)
    (lawful : IsLawful os descriptors) where
  module _ (base : List ℕ) where
    unless_running :
        (running : Bool) (p q : SocketCan K)
        → IsOwner os descriptors lawful base p
        → IsOwner os descriptors lawful base q
        → IsOwner os descriptors lawful base (if running then q else p)
    unless_running true p q h h' = h'
    unless_running false p q h h' = h

    perform-IsOwner :
        (c : Call) (p : SocketCan K)
        → IsOwner os descriptors lawful base p
        → IsOwner os descriptors lawful base (perform os c p)
    unfolding perform set_error_callback receive_round receive
    perform-IsOwner opening p h = open_device-IsOwner os descriptors lawful base p h
    perform-IsOwner closing p h = close-IsOwner os descriptors lawful base p h
    perform-IsOwner reading p h = read_frame-IsOwner os descriptors lawful base p h
    perform-IsOwner (configuring config) p h =
        configure-IsOwner os descriptors lawful base p config h
    perform-IsOwner (receive_callback present) p h =
        set_receive_callback-IsOwner os descriptors lawful base p present h
    perform-IsOwner (error_callback present) p h = h
    perform-IsOwner (sending bytes) p h = send-IsOwner os descriptors lawful base p bytes h
    perform-IsOwner (receiving buffer max_size) p h =
        receive-IsOwner os descriptors lawful base p buffer max_size h
    perform-IsOwner thread_round p h =
        unless_running p.link.running p (receive os p [] (payload_limit p.config.enable_fd)).2 h
          (receive-IsOwner os descriptors lawful base p [] (payload_limit p.config.enable_fd) h)
    perform-IsOwner (writing frame) p h = write_frame-IsOwner os descriptors lawful base p frame h

    run-IsOwner :
        (calls : List Call) (p : SocketCan K)
        → IsOwner os descriptors lawful base p
        → IsOwner os descriptors lawful base (run os calls p)
    unfolding run
    run-IsOwner [] p h = h
    run-IsOwner (c ∷ rest) p h = run-IsOwner rest (perform os c p) (perform-IsOwner c p h)

    -- Under a lawful kernel, whatever calls are made on a new SocketCAN object, in whatever order and whatever
    -- the kernel answers, the open descriptors are the one it holds, if it holds one, and those that were
    -- open before: none leaks. Closing it then leaves just the latter.
    pub close-run :
        (calls : List Call) (config : SocketCanConfig) (k : K)
        → descriptors k ≡ base
        → let q = run os calls (new_socket_can config k) in
          IsOwner os descriptors lawful base q
          × (descriptors (close os q).1.kernel ≡ base)
          × (is_open (close os q).1 ≡ false)
    unfolding close stop_receive_loop new_socket_can
    close-run calls config k at_first =
        let q = run os calls (new_socket_can config k) in
        let own = run-IsOwner calls (new_socket_can config k) at_first in
        let (freed, closed) =
          drop_socket_closed os descriptors lawful base (stop_receive_loop q) own in
        (own, freed, closed)
