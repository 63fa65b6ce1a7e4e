-- ===== src/Udp/Steps.antt =====
-- A UDP object under calls of its interface, rounds of its receive thread and rounds of its health monitor,
-- in any order.
use com_lib.Posix.{Os}
use com_lib.Posix.Lawful.{IsLawful}
use com_lib.Udp.Defs.{UdpConfig, Udp, max_udp_datagram_size, is_open, new_udp}
use com_lib.Udp.Lifecycle.{
  open_device, close, configure, set_receive_callback, set_error_callback, monitor_round,
}
use com_lib.Udp.Lifecycle.Descriptors.{
  IsOwner, open_device-IsOwner, close-IsOwner, close_closed, configure-IsOwner,
  set_receive_callback-IsOwner, monitor_round-IsOwner,
}
use com_lib.Udp.Transfer.{send, receive, receive_round}
use com_lib.Udp.Transfer.Laws.{send-IsOwner, receive-IsOwner}
use com_lib.Prelude.{ℕ, Bool, true, false, List, [], ◌≡◌}

module _ {K : Type 0} (os : Os K) where
  pub data Move : Udp K → Udp K → Type 0 where
    opening : (p : Udp K) → Move p (open_device os p).1
    closing : (p : Udp K) → Move p (close os p).1
    configuring : (p : Udp K) (config : UdpConfig) → Move p (configure os p config).1
    receive_callback : (p : Udp K) (present : Bool) → Move p (set_receive_callback os p present)
    error_callback : (p : Udp K) (present : Bool) → Move p (set_error_callback os p present)
    sending : (p : Udp K) (bytes : List ℕ) → Move p (send os p bytes).1
    receiving :
        (p : Udp K) (buffer : List ℕ) (max_size : ℕ) → Move p (receive os p buffer max_size).2
    monitoring : (elapsed : ℕ) (p : Udp K) → Move p (monitor_round os elapsed p)
    thread_round : (p : Udp K) → p.link.running ≡ true → Move p (receive_round os p).1

  pub data Moves : Udp K → Udp K → Type 0 where
    start : (p : Udp K) → Moves p p
    followed : (p q r : Udp K) → Moves p q → Move q r → Moves p r

  module _ (descriptors : K → List ℕ) (lawful : IsLawful os descriptors) (base : List ℕ) where
    Move-IsOwner :
        (p q : Udp K)
        → Move p q
        → IsOwner os descriptors lawful base p
        → IsOwner os descriptors lawful base q
    unfolding set_error_callback receive_round receive
    Move-IsOwner _ _ (opening p) own = open_device-IsOwner os descriptors lawful base p own
    Move-IsOwner _ _ (closing p) own = close-IsOwner os descriptors lawful base p own
    Move-IsOwner _ _ (configuring p config) own =
        configure-IsOwner os descriptors lawful base p config own
    Move-IsOwner _ _ (receive_callback p present) own =
        set_receive_callback-IsOwner os descriptors lawful base p present own
    Move-IsOwner _ _ (error_callback p present) own = own
    Move-IsOwner _ _ (sending p bytes) own = send-IsOwner os descriptors lawful base p bytes own
    Move-IsOwner _ _ (receiving p buffer max_size) own =
        receive-IsOwner os descriptors lawful base p buffer max_size own
    Move-IsOwner _ _ (monitoring elapsed p) own =
        monitor_round-IsOwner os descriptors lawful base elapsed p own
    Move-IsOwner _ _ (thread_round p running) own =
        receive-IsOwner os descriptors lawful base p [] max_udp_datagram_size own

    Moves-IsOwner :
        (p q : Udp K)
        → Moves p q
        → IsOwner os descriptors lawful base p
        → IsOwner os descriptors lawful base q
    Moves-IsOwner _ _ (start p) own = own
    Moves-IsOwner _ _ (followed p q r before last) own =
        Move-IsOwner q r last (Moves-IsOwner p q before own)

    -- Under a lawful kernel, whatever steps a new UDP object makes and whatever the calls answer, the open
    -- descriptors are its own, if it has one, and those that were open before. Closing it then leaves just
    -- the latter.
    pub close-Moves :
        (config : UdpConfig) (k : K) (q : Udp K)
        → descriptors k ≡ base
        → Moves (new_udp config k) q
        → IsOwner os descriptors lawful base q
          × (descriptors (close os q).1.kernel ≡ base)
          × (is_open (close os q).1 ≡ false)
    unfolding new_udp
    close-Moves config k q at_first steps =
        let own = Moves-IsOwner (new_udp config k) q steps (at_first, tt) in
        let (freed, closed) = close_closed os descriptors lawful base q own in (own, freed, closed)
