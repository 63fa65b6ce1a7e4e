-- ===== src/Tcp/Tests.antt =====
-- The theorems on TCP with the sample kernel.
use mathlib.Core.List.{append-nil}
use com_lib.Posix.Sample.{Kernel, new_kernel, sample, send_after, fds_of, sample-IsLawful}
use com_lib.Posix.Options.{timeout_options, set_options}
use com_lib.Transport.{tcp, two_way, Role, count_received}
use com_lib.Tcp.Defs.{TcpConfig, SocketHandle, Tcp, new_tcp, set_healthy, record_send, is_open}
use com_lib.Tcp.Lifecycle.{open_device, close, destroy}
use com_lib.Tcp.Connection.{configure_socket, bind_local, socket_options}
use com_lib.Tcp.Reconnect.{ensure_connected}
use com_lib.Tcp.Transfer.{send, receive}
use com_lib.Tcp.Transfer.Stream.{IsStream, taken}
use com_lib.Tcp.Transfer.Delivery.{Delivered, send-Delivered}
use com_lib.Tcp.Transfer.Takeover.{receive_takeover}
use com_lib.Tcp.Connection.Descriptors.{IsOwner}
use com_lib.Tcp.Steps.{Steps, opening, receiving, start, followed, close-Steps}
use com_lib.Prelude.Int.{pos}
use com_lib.Prelude.{
  ℕ, zero, suc, true, false, List, [], ◌∷◌, ◌++◌, none, some, ◌≡◌, refl, sym, arith,
}

abbrev sent_of : ℕ → Kernel → List ℕ
sent_of fd k = k.sent

abbrev signals_of : Kernel → ℕ
signals_of k = k.signals

takes :
    (n : ℕ) (bytes : List ℕ) (k : Kernel)
    → (send_after n bytes k).1.sent ≡ k.sent ++ taken (send_after n bytes k).0 bytes
takes zero bytes k = refl
takes (suc n) bytes k = sym (append-nil k.sent)

sample-IsStream : IsStream sample sent_of signals_of
sample-IsStream = record {
  fits = λ fd bytes k. ground arith;
  takes = λ fd bytes k. takes k.signals bytes k;
  pays = λ fd bytes k. ground arith;
  stays = λ fd fd' k. refl;
}

abbrev config_of : Role → TcpConfig
config_of role = record {
  protocol = tcp;
  direction = two_way;
  role = role;
  non_blocking = false;
  auto_reconnect = true;
  spawn_receive_thread = false;
  receive_thread_sleep = 0;
  receive_timeout = 1500;
  send_timeout = 0;
  local = record { address = []; port = 0 };
  remote = record { address = 49 ∷ []; port = 7 };
  reuse_address = true;
  no_delay = true;
  keep_alive = false;
  listen_backlog = 5;
}

abbrev a_handle : SocketHandle
a_handle = record { socket = some 3; listen = none; server = false }

abbrev a_client : Tcp Kernel
a_client =
    record (new_tcp (config_of Role.client)
      (record new_kernel { open_fds = 3 ∷ new_kernel.open_fds })) { handle = some a_handle }

send-Delivered_example :
    Delivered sample sent_of signals_of sample-IsStream a_client 3
      (10 ∷ 20 ∷ 30 ∷ [])
      (send sample 4 a_client (10 ∷ 20 ∷ 30 ∷ []))
unfolding new_tcp ensure_connected
send-Delivered_example =
    send-Delivered sample sent_of signals_of sample-IsStream 4 a_client a_client a_handle 3
      (10 ∷ 20 ∷ 30 ∷ []) refl refl refl refl refl (omega arith)

-- The three bytes go in two parts, after a signal.
sent_whole :
    elim (send sample 4 a_client (10 ∷ 20 ∷ 30 ∷ [])) [
      | none ↦ []
      | some result ↦ result.1.kernel.sent
    ]
    ≡ 10 ∷ 20 ∷ 30 ∷ []
unfolding new_tcp send record_send
sent_whole = refl

abbrev server_handle : SocketHandle
server_handle = record { socket = some 4; listen = some 3; server = true }

abbrev a_server : Tcp Kernel
a_server =
    record (new_tcp (config_of Role.server) (record new_kernel {
      open_fds = 4 ∷ 3 ∷ new_kernel.open_fds;
      waiting = [] ∷ (50 ∷ 60 ∷ []) ∷ [];
    })) { handle = some server_handle }

abbrev emptied : Kernel
emptied = (sample.receive_bytes 4 16 a_server.kernel).1

abbrev accepted : Kernel
accepted = (sample.accept 3 (sample.close_fd 4 emptied)).1

receive_takeover_example :
    let (ended, nothing, q) = receive sample a_server [] 16 in
    let (result, received, r) = receive sample q [] 16 in
    (ended ≡ pos 0)
    × (q.kernel ≡ sample.close_fd 4 emptied)
    × (q.link.healthy ≡ false)
    × (result ≡ pos 2)
    × (received ≡ 50 ∷ 60 ∷ [])
    × (r.handle ≡ some (record server_handle { socket = some 10 }))
    × (r.link.healthy ≡ true)
    × (r.link.stats ≡ count_received 2 a_server.link.stats)
unfolding new_tcp receive set_options socket_options timeout_options
receive_takeover_example =
    receive_takeover sample a_server server_handle 4 3 10 16 [] 50 (60 ∷ []) emptied accepted
      (record accepted { waiting = [] }) refl refl refl refl refl refl refl refl refl refl

abbrev fresh_client : Tcp Kernel
fresh_client = new_tcp (config_of Role.client) new_kernel

abbrev opened_client : Tcp Kernel
opened_client = (open_device sample fresh_client).1

-- It is opened, and receives nothing.
abbrev a_run : Steps sample fresh_client (receive sample opened_client [] 16).2
a_run =
    followed fresh_client opened_client (receive sample opened_client [] 16).2
      (followed fresh_client fresh_client opened_client (start fresh_client) (opening fresh_client))
      (receiving opened_client [] 16)

close-Steps_example :
    let q = (receive sample opened_client [] 16).2 in
    IsOwner sample fds_of sample-IsLawful (2 ∷ 1 ∷ 0 ∷ []) q
    × ((close sample q).1.kernel.open_fds ≡ 2 ∷ 1 ∷ 0 ∷ [])
    × (is_open (close sample q).1 ≡ false)
    × ((destroy sample q).kernel.open_fds ≡ 2 ∷ 1 ∷ 0 ∷ [])
    × ((destroy sample q).link.joinable ≡ false)
close-Steps_example =
    close-Steps sample fds_of sample-IsLawful (2 ∷ 1 ∷ 0 ∷ []) (config_of Role.client) new_kernel
      (receive sample opened_client [] 16).2 refl a_run

-- The client is open in between.
opened_client_fds : opened_client.kernel.open_fds ≡ 6 ∷ 2 ∷ 1 ∷ 0 ∷ []
unfolding new_tcp open_device configure_socket bind_local set_healthy set_options socket_options
    timeout_options
opened_client_fds = refl
