-- ===== src/SocketCan/Tests.antt =====
-- The theorems on SocketCAN with the sample kernel.
use com_lib.Posix.{NativeFrame}
use com_lib.Posix.Sample.{Kernel, new_kernel, sample, fds_of, sample-IsLawful}
use com_lib.Transport.{can, two_way, count_received, count_sent}
use com_lib.SocketCan.Defs.{SocketCanConfig, CanFrame, SocketCan, new_socket_can, is_open}
use com_lib.SocketCan.Frames.{encode}
use com_lib.SocketCan.Frames.RoundTrip.{IsWellFormed}
use com_lib.SocketCan.Lifecycle.{close}
use com_lib.SocketCan.Lifecycle.Descriptors.{IsOwner}
use com_lib.SocketCan.Calls.{opening, configuring, sending, receiving, run, close-run}
use com_lib.SocketCan.Transfer.{send, receive, read_frame, write_frame, payload_frame}
use com_lib.SocketCan.Transfer.Laws.{
  native_of, read_frame-write_frame, write_frame_lossy, receive-send,
}
use com_lib.Prelude.Int.{pos}
use com_lib.Prelude.{ℕ, true, false, List, [], ◌∷◌, some, replicate, ◌≡◌, refl, arith}

abbrev plain : SocketCanConfig
plain = record {
  protocol = can;
  direction = two_way;
  spawn_receive_thread = true;
  receive_thread_sleep = 0;
  receive_timeout = 100;
  send_timeout = 0;
  interface = 99 ∷ 97 ∷ 110 ∷ 48 ∷ [];
  enable_fd = false;
  loopback = true;
  receive_own_messages = false;
  filters = record { id = 1; mask = 2 } ∷ [];
}

abbrev device : Kernel → SocketCan Kernel
device k = record (new_socket_can plain k) { socket = some 3 }

abbrev a_frame : CanFrame
a_frame = record {
  id = 0x1ABC;
  extended = true;
  fd_frame = false;
  error_frame = false;
  dlc = 3;
  bytes = 10 ∷ 20 ∷ 30 ∷ [];
}

a_frame-IsWellFormed : IsWellFormed 8 a_frame
a_frame-IsWellFormed = record { id_fits = omega arith; dlc_counts = refl; bytes_fit = omega arith }

abbrev with_frame : NativeFrame → Kernel
with_frame f = record new_kernel { frames = f ∷ [] }

read_frame-write_frame_example :
    ((write_frame sample (device new_kernel) a_frame).0 ≡ true)
    × ((read_frame sample (write_frame sample (device new_kernel) a_frame).1).0 ≡ some a_frame)
unfolding new_socket_can
read_frame-write_frame_example =
    read_frame-write_frame sample (device new_kernel) a_frame 3 16 (with_frame (native_of a_frame))
      new_kernel a_frame-IsWellFormed refl refl refl refl refl

abbrev a_long_frame : CanFrame
a_long_frame = record a_frame { bytes = replicate 256 7 }

write_frame_lossy_example :
    ((encode a_long_frame).length ≡ 0)
    × ((write_frame sample (device new_kernel) a_long_frame).0 ≡ true)
    × ((write_frame sample (device new_kernel) a_long_frame).1.link.stats
        ≡ count_sent 0 (device new_kernel).link.stats)
unfolding new_socket_can
write_frame_lossy_example =
    write_frame_lossy sample (device new_kernel) a_long_frame 3 16
      (with_frame (encode a_long_frame)) refl refl refl

abbrev payload : List ℕ
payload = 1 ∷ 2 ∷ 3 ∷ 4 ∷ 5 ∷ 6 ∷ 7 ∷ 8 ∷ 9 ∷ []

abbrev receiver : SocketCan Kernel
receiver = device (with_frame (payload_frame sample false payload))

-- Nine bytes do not fit in a frame, and only five in the buffer.
receive-send_example :
    let (result, received, q) = receive sample receiver [] 5 in
    ((send sample (device new_kernel) payload).0 ≡ pos 8)
    × ((send sample (device new_kernel) payload).1.link.stats
        ≡ count_sent 8 (device new_kernel).link.stats)
    × (result ≡ pos 5)
    × (received ≡ 1 ∷ 2 ∷ 3 ∷ 4 ∷ 5 ∷ [])
    × (q.link.stats ≡ count_received 5 receiver.link.stats)
unfolding new_socket_can
receive-send_example =
    receive-send sample (device new_kernel) receiver 3 3 16 5 payload []
      (with_frame (payload_frame sample false payload)) new_kernel refl refl refl refl refl refl
      refl

close-run_example :
    let calls =
      opening
      ∷ sending payload
      ∷ configuring (record plain { filters = [] })
      ∷ receiving [] 8
      ∷ [] in
    let q = run sample calls (new_socket_can plain new_kernel) in
    IsOwner sample fds_of sample-IsLawful (2 ∷ 1 ∷ 0 ∷ []) q
    × ((close sample q).1.kernel.open_fds ≡ 2 ∷ 1 ∷ 0 ∷ [])
    × (is_open (close sample q).1 ≡ false)
close-run_example =
    close-run sample fds_of sample-IsLawful (2 ∷ 1 ∷ 0 ∷ [])
      (opening
        ∷ sending payload
        ∷ configuring (record plain { filters = [] })
        ∷ receiving [] 8
        ∷ [])
      plain new_kernel refl
