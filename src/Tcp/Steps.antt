-- ===== src/Tcp/Steps.antt =====
-- A TCP object under calls of its interface and rounds of its receive thread, in any order. A `send` is a
-- step for any fuel with which it ends.
use com_lib.Posix.{Os}
use com_lib.Posix.Lawful.{IsLawful}
use com_lib.Tcp.Defs.{TcpConfig, Tcp, is_open, new_tcp}
use com_lib.Tcp.Connection.Descriptors.{IsOwner}
use com_lib.Tcp.Lifecycle.{
  open_device, close, destroy, configure, set_receive_callback, set_error_callback,
}
use com_lib.Tcp.Lifecycle.Descriptors.{
  open_device-IsOwner, close-IsOwner, close_closed, configure-IsOwner, set_receive_callback-IsOwner,
}
use com_lib.Tcp.Transfer.{default_tcp_buffer_size, send, receive, receive_round}
use com_lib.Tcp.Transfer.Descriptors.{send-IsOwner, receive-IsOwner}
use com_lib.Prelude.Int.{ℤ}
use com_lib.Prelude.{ℕ, Bool, true, false, List, [], some, ◌≡◌, ap, ◌∙◌, arith}

module _ {K : Type 0} (os : Os K) where
  pub data Step : Tcp K → Tcp K → Type 0 where
    opening : (p : Tcp K) → Step p (open_device os p).1
    closing : (p : Tcp K) → Step p (close os p).1
    configuring : (p : Tcp K) (config : TcpConfig) → Step p (configure os p config).1
    receive_callback : (p : Tcp K) (present : Bool) → Step p (set_receive_callback os p present)
    error_callback : (p : Tcp K) (present : Bool) → Step p (set_error_callback os p present)
    sending :
        (fuel : ℕ) (p : Tcp K) (bytes : List ℕ) (result : ℤ) (q : Tcp K)
        → send os fuel p bytes ≡ some (result, q)
        → Step p q
    receiving :
        (p : Tcp K) (buffer : List ℕ) (max_size : ℕ) → Step p (receive os p buffer max_size).2
    thread_round : (p : Tcp K) → p.link.running ≡ true → Step p (receive_round os p).1

  pub data Steps : Tcp K → Tcp K → Type 0 where
    start : (p : Tcp K) → Steps p p
    followed : (p q r : Tcp K) → Steps p q → Step q r → Steps p r

  module _ (descriptors : K → List ℕ) (lawful : IsLawful os descriptors) (base : List ℕ) where
    Step-IsOwner :
        (p q : Tcp K)
        → Step p q
        → IsOwner os descriptors lawful base p
        → IsOwner os descriptors lawful base q
    unfolding set_error_callback receive_round receive
    Step-IsOwner _ _ (opening p) own = open_device-IsOwner os descriptors lawful base p own
    Step-IsOwner _ _ (closing p) own = close-IsOwner os descriptors lawful base p own
    Step-IsOwner _ _ (configuring p config) own =
        configure-IsOwner os descriptors lawful base p config own
    Step-IsOwner _ _ (receive_callback p present) own =
        set_receive_callback-IsOwner os descriptors lawful base p present own
    Step-IsOwner _ _ (error_callback p present) own = own
    Step-IsOwner _ _ (sending fuel p bytes result q e) own =
        send-IsOwner os descriptors lawful base fuel p bytes (result, q) e own
    Step-IsOwner _ _ (receiving p buffer max_size) own =
        receive-IsOwner os descriptors lawful base p buffer max_size own
    Step-IsOwner _ _ (thread_round p running) own =
        receive-IsOwner os descriptors lawful base p [] default_tcp_buffer_size own

    Steps-IsOwner :
        (p q : Tcp K)
        → Steps p q
        → IsOwner os descriptors lawful base p
        → IsOwner os descriptors lawful base q
    Steps-IsOwner _ _ (start p) own = own
    Steps-IsOwner _ _ (followed p q r before last) own =
        Step-IsOwner q r last (Steps-IsOwner p q before own)

    destroy-close :
        (p : Tcp K)
        → ((destroy os p).kernel ≡ (close os p).1.kernel) × ((destroy os p).link.joinable ≡ false)
    unfolding destroy
    destroy-close p = ground arith

    -- Under a lawful kernel, whatever steps a new TCP object makes and whatever the calls answer, the open
    -- descriptors are those of its handle, if it has one, and those that were open before: none leaks.
    -- Closing it then leaves just the latter and the object closed, and so does destroying it, which
    -- leaves no receive thread to join either.
    pub close-Steps :
        (config : TcpConfig) (k : K) (q : Tcp K)
        → descriptors k ≡ base
        → Steps (new_tcp config k) q
        → IsOwner os descriptors lawful base q
          × (descriptors (close os q).1.kernel ≡ base)
          × (is_open (close os q).1 ≡ false)
          × (descriptors (destroy os q).kernel ≡ base)
          × ((destroy os q).link.joinable ≡ false)
    unfolding new_tcp
    close-Steps config k q at_first steps =
        let own = Steps-IsOwner (new_tcp config k) q steps at_first in
        let (freed, closed) = close_closed os descriptors lawful base q own in
        let (same, joined) = destroy-close q in
        (own, freed, closed, ap descriptors same ∙ freed, joined)
