-- ===== src/Udp/Tests.antt =====
-- The theorems on UDP with the sample kernel.
use com_lib.Posix.Sample.{Kernel, new_kernel, sample, fds_of, sample-IsLawful}
use com_lib.Transport.{udp, Mode, two_way}
use com_lib.Udp.Defs.{UdpConfig, UdpHandle, Udp, new_udp, is_open, set_healthy}
use com_lib.Udp.Lifecycle.{open_device, close, monitor_round}
use com_lib.Udp.Lifecycle.Descriptors.{IsOwner}
use com_lib.Udp.Steps.{Moves, opening, monitoring, start, followed, close-Moves}
use com_lib.Udp.Transfer.{send}
use com_lib.Udp.Transfer.Laws.{redirected, send-redirected}
use com_lib.Prelude.{true, false, [], ◌∷◌, none, some, ◌≡◌, refl}

abbrev a_config : UdpConfig
a_config = record {
  protocol = udp;
  mode = Mode.unicast;
  direction = two_way;
  non_blocking = false;
  spawn_receive_thread = false;
  receive_thread_sleep = 0;
  receive_timeout = 0;
  send_timeout = 0;
  reconnect_interval = 1000;
  local = record { address = []; port = 0 };
  remote = record { address = 49 ∷ []; port = 7 };
  allow_broadcast = false;
  join_multicast = false;
  multicast_group = [];
  multicast_ttl = 1;
  multicast_loopback = false;
  auto_rebind = true;
}

abbrev a_handle : UdpHandle
a_handle = record { socket = 3; local = none }

abbrev a_socket : Udp Kernel
a_socket = record (new_udp a_config (record new_kernel { open_fds = 3 ∷ new_kernel.open_fds })) {
  handle = some a_handle;
}

send-redirected_example :
    let q = redirected sample (record { address = 50 ∷ 51 ∷ []; port = 9 }) [] a_socket in
    ((send sample q (1 ∷ 2 ∷ [])).0 ≡ (send sample a_socket (1 ∷ 2 ∷ [])).0)
    × ((send sample q (1 ∷ 2 ∷ [])).1
        ≡ redirected sample
            (record { address = 50 ∷ 51 ∷ []; port = 9 })
            []
            (send sample a_socket (1 ∷ 2 ∷ [])).1)
unfolding new_udp
send-redirected_example =
    send-redirected sample a_socket (record { address = 50 ∷ 51 ∷ []; port = 9 }) [] (1 ∷ 2 ∷ []) 1
      2 refl refl refl refl

abbrev fresh : Udp Kernel
fresh = new_udp a_config new_kernel

abbrev opened : Udp Kernel
opened = (open_device sample fresh).1

-- It is opened, and its monitor finds nothing to do.
abbrev a_run : Moves sample fresh (monitor_round sample 500 opened)
a_run =
    followed fresh opened (monitor_round sample 500 opened)
      (followed fresh fresh opened (start fresh) (opening fresh)) (monitoring 500 opened)

close-Moves_example :
    let q = monitor_round sample 500 opened in
    IsOwner sample fds_of sample-IsLawful (2 ∷ 1 ∷ 0 ∷ []) q
    × ((close sample q).1.kernel.open_fds ≡ 2 ∷ 1 ∷ 0 ∷ [])
    × (is_open (close sample q).1 ≡ false)
close-Moves_example =
    close-Moves sample fds_of sample-IsLawful (2 ∷ 1 ∷ 0 ∷ []) a_config new_kernel
      (monitor_round sample 500 opened) refl a_run

-- The monitor of the opened object is there.
opened_joinable : opened.monitor_joinable ≡ true
unfolding open_device new_udp set_healthy
opened_joinable = refl
