-- ===== src/SocketCan/Threads/Tests.antt =====
-- The theorems on threads in `SocketCAN::send`, with the sample kernel.
use com_lib.Posix.Sample.{Kernel, new_kernel, sample}
use com_lib.Transport.{can, two_way, not_open}
use com_lib.Transport.Link
use com_lib.Transport.Link.{error_result}
use com_lib.SocketCan.Defs.{SocketCanConfig, SocketCan, new_socket_can, report_error}
use com_lib.SocketCan.Threads.{returned, start, aim, advance, turn, run}
use com_lib.SocketCan.Threads.Single.{Explains}
use com_lib.SocketCan.Threads.Entries.{turns, entries}
use com_lib.SocketCan.Threads.Turns.{run-returned}
use com_lib.SocketCan.Threads.Order.{run-Explains}
use com_lib.Prelude.Int.{ℤ, pos}
use com_lib.Prelude.{
  ℕ, zero, suc, ◌<◌, ◌≤◌, true, false, List, [], ◌∷◌, some, get_elem?, ◌≡◌, refl, arith,
}

abbrev plain : SocketCanConfig
plain = record {
  protocol = can;
  direction = two_way;
  spawn_receive_thread = false;
  receive_thread_sleep = 0;
  receive_timeout = 0;
  send_timeout = 0;
  interface = 99 ∷ [];
  enable_fd = false;
  loopback = true;
  receive_own_messages = false;
  filters = [];
}

abbrev device : SocketCan Kernel
device = record (new_socket_can plain new_kernel) { socket = some 3 }

abbrev payloads : List (List ℕ)
payloads = (1 ∷ []) ∷ (2 ∷ []) ∷ []

-- Both threads have their snapshot before one writes, and the second writes first.
abbrev schedule : List ℕ
schedule = 0 ∷ 1 ∷ 1 ∷ 0 ∷ 0 ∷ 1 ∷ []

fair : (i : ℕ) → i < 2 → 3 ≤ turns i schedule
unfolding turns
fair zero h = omega arith
fair (suc zero) h = omega arith
fair (suc (suc i)) h = absurd (omega arith)

run-returned_example :
    (r : ℤ) × (get_elem? (run sample schedule (start device payloads)).stages 1 ≡ some (returned r))
    × (entries 1 (run sample schedule (start device payloads)).log ≡ (2 ∷ [], r) ∷ [])
run-returned_example = run-returned sample device payloads schedule 1 refl (fair 1 (omega arith))

run-Explains_example :
    Explains sample device
      (run sample schedule (start device payloads)).log
      (run sample schedule (start device payloads)).object
run-Explains_example = run-Explains sample device payloads schedule fair

-- The log of that run, the second thread first.
two_writes :
    (run sample schedule (start device payloads)).log ≡ (1, 2 ∷ [], pos 1) ∷ (0, 1 ∷ [], pos 1) ∷ []
unfolding run turn advance aim new_socket_can
two_writes = refl

-- On an object that was never opened both calls are refused, and both errors reported.
abbrev closed_device : SocketCan Kernel
closed_device =
    let p = new_socket_can plain new_kernel in
    record p { link = record p.link { has_error_callback = true } }

two_refusals :
    let sys = run sample schedule (start closed_device payloads) in
    (sys.log ≡ (0, 1 ∷ [], error_result) ∷ (1, 2 ∷ [], error_result) ∷ [])
    × (sys.object.link.error_calls ≡ not_open ∷ not_open ∷ [])
unfolding run turn advance aim new_socket_can report_error Link.report_error
two_refusals = (refl, refl)
