-- ===== src/Udp/Transfer/Laws.antt =====
-- What `send` does with the address and how it cuts the data, and what `receive` gives back.
use com_lib.Posix.{Os}
use com_lib.Posix.Endpoint.{Endpoint}
use com_lib.Posix.Lawful.{IsLawful}
use com_lib.Udp.Defs.{Udp, report_error, record_send, record_receive, set_healthy}
use com_lib.Udp.Lifecycle.Descriptors.{IsOwner}
use com_lib.Udp.Transfer.{target_address, after_send, send, after_receive, receive}
use com_lib.Prelude.{ℕ, false, List, some, is_empty, ◌≡◌, arith}

module _ {K : Type 0} (os : Os K) where
  -- The configuration with other destinations.
  abbrev pub redirected : Endpoint → List ℕ → Udp K → Udp K
  redirected remote group p = record p {
    config = record p.config { remote = remote; multicast_group = group };
  }

  -- Where the datagram goes does not depend on the configured destination: with any other remote endpoint
  -- and group whose address parses, `send` makes the same call of the kernel, returns the same and counts
  -- the same.
  pub send-redirected :
      (p : Udp K) (remote : Endpoint) (group bytes : List ℕ) (a a' : ℕ)
      → let q = redirected remote group p in
        is_empty (target_address p.config) ≡ false
        → os.parse_address (target_address p.config) ≡ some a
        → is_empty (target_address q.config) ≡ false
        → os.parse_address (target_address q.config) ≡ some a'
        → ((send os q bytes).0 ≡ (send os p bytes).0)
          × ((send os q bytes).1 ≡ redirected remote group (send os p bytes).1)
  unfolding send after_send report_error record_send
  send-redirected p remote group bytes a a' given parsed given' parsed' = grind arith

  module _ (descriptors : K → List ℕ) (lawful : IsLawful os descriptors) (base : List ℕ) where
    pub send-IsOwner :
        (p : Udp K) (bytes : List ℕ)
        → IsOwner os descriptors lawful base p
        → IsOwner os descriptors lawful base (send os p bytes).1
    unfolding send after_send report_error record_send
    send-IsOwner p bytes own = grind (arith, own, lawful.after_send)

    pub receive-IsOwner :
        (p : Udp K) (buffer : List ℕ) (max_size : ℕ)
        → IsOwner os descriptors lawful base p
        → IsOwner os descriptors lawful base (receive os p buffer max_size).2
    unfolding receive after_receive report_error record_receive set_healthy
    receive-IsOwner p buffer max_size own = grind (arith, own, lawful.after_receive)
