-- ===== src/Tcp/Transfer/Delivery.antt =====
-- What `send` returns and counts, and what reaches the peer.
use native.Mathlib.Nat.{zero-add}
use com_lib.Posix.{Os}
use com_lib.Transport.{Statistics, is_send_enabled, count_sent, count_error, send_failed}
use com_lib.Transport.Link
use com_lib.Transport.Link.{error_result}
use com_lib.Tcp.Connection.{close_handle_socket, drop_client_connection, reset_server_connection}
use com_lib.Tcp.Defs.{SocketHandle, Tcp, report_error, record_send, set_healthy}
use com_lib.Tcp.Reconnect.{ensure_connected}
use com_lib.Tcp.Transfer.{send_loop, disconnect, after_loop, finish, transmit, after_ensure, send}
use com_lib.Tcp.Transfer.Stream.{
  Ending, whole, held_up, broken_off, ok_of, Reached, IsStream, send_loop-Delivers,
}
use com_lib.Prelude.Int.{ℤ, pos}
use com_lib.Prelude.{
  ℕ, ◌+◌, ◌≤◌, Bool, true, false, List, ◌++◌, Option, some, length, take, is_empty, ltb,
  if◌then◌else◌, ◌≡◌, refl, sym, subst, ap, ◌∙◌, arith,
}

-- The result for `n` bytes taken, and the statistics then. An error after some bytes leaves these bytes
-- out of the count.
abbrev pub reply : Bool → ℕ → ℤ
reply true n = pos n
reply false n = if ltb 0 n then pos n else error_result

abbrev pub tally : Bool → ℕ → Statistics → Statistics
tally true n s = if ltb 0 n then count_sent n s else s
tally false n s = count_error s

module _ {K : Type 0} (os : Os K) (accepted : ℕ → K → List ℕ) (interruptions : K → ℕ)
    (stream : IsStream os accepted interruptions) where
  -- The result of `send` for a connected object `p`.
  abbrev pub Delivered : Tcp K → ℕ → List ℕ → Option (ℤ × Tcp K) → Type 0
  Delivered p fd bytes o =
      (how : Ending) × (n : ℕ) × (q : Tcp K) × (o ≡ some (reply (ok_of how) n, q))
      × (n ≤ length bytes)
      × (accepted fd q.kernel ≡ accepted fd p.kernel ++ take n bytes)
      × (q.link.stats ≡ tally (ok_of how) n p.link.stats)
      × Reached os accepted interruptions stream p.config.non_blocking fd p.kernel how n bytes

  disconnect-accepted :
      (p : Tcp K) (fd : ℕ)
      → (accepted fd (disconnect os p).kernel ≡ accepted fd p.kernel)
        × ((disconnect os p).link.stats ≡ p.link.stats)
  unfolding disconnect drop_client_connection reset_server_connection close_handle_socket
  disconnect-accepted p fd = grind (arith, stream.stays)

  finish-Delivered :
      (p : Tcp K) (fd : ℕ) (bytes : List ℕ) (how : Ending) (n : ℕ) (k : K)
      → n ≤ length bytes
      → accepted fd k ≡ accepted fd p.kernel ++ take n bytes
      → Reached os accepted interruptions stream p.config.non_blocking fd p.kernel how n bytes
      → Delivered p fd bytes (some (after_loop os (ok_of how, n, k) p))
  unfolding after_loop report_error record_send set_healthy Link.record_send Link.report_error
  finish-Delivered p fd bytes whole n k fits moved reached = (
    whole,
    n,
    (after_loop os (true, n, k) p).1,
    refl,
    fits,
    ground (arith, moved),
    ground arith,
    reached,
  )
  finish-Delivered p fd bytes held_up n k fits moved reached = (
    held_up,
    n,
    (after_loop os (true, n, k) p).1,
    refl,
    fits,
    ground (arith, moved),
    ground arith,
    reached,
  )
  finish-Delivered p fd bytes broken_off n k fits moved reached =
      let broken = set_healthy false (report_error send_failed (record p { kernel = k })) in
      let (same, kept) = disconnect-accepted broken fd in
      (broken_off, n, disconnect os broken, refl, fits, same ∙ moved, kept, reached)

  transmit-Delivered :
      (fuel : ℕ) (p : Tcp K) (h : SocketHandle) (fd : ℕ) (bytes : List ℕ)
      → p.handle ≡ some h
      → h.socket ≡ some fd
      → length bytes + interruptions p.kernel ≤ fuel
      → Delivered p fd bytes (transmit os fuel bytes p)
  unfolding transmit finish
  transmit-Delivered fuel p h fd bytes opened connected enough =
      let (how, n, k, result, fits, moved, reached) =
        send_loop-Delivers os accepted interruptions stream fuel fd p.config.non_blocking bytes 0
          p.kernel enough in
      subst (Delivered p fd bytes)
        (sym (
          looped
          ∙ ap (λ o. finish os o p) (result ∙ ap (λ t. some (ok_of how, t, k)) (zero-add n))))
        (finish-Delivered p fd bytes how n k fits moved reached)
    where
      looped :
          transmit os fuel bytes p
          ≡ finish os (send_loop os fuel fd p.config.non_blocking bytes 0 p.kernel) p
      looped = ground (arith, opened, connected)

  -- Where the kernel takes a first part of the bytes at each call, `send` of some bytes through a connection
  -- ends if the fuel is at least their number and that of the signals to come. The peer is given the first
  -- `n` bytes, in order, and the result is `n`, or -1 if the loop ended with an error before any byte was
  -- taken. These are all the bytes, or on a socket that does not block those of the one call of `::send` that
  -- took any, or those taken when a call for the others gave nothing without an error, or an error that is
  -- neither a signal nor a socket that would block. Only the last is an error of the loop. A loop that ended without an error counts a message of `n` bytes if there are any, one that
  -- ended with an error counts the error alone.
  pub send-Delivered :
      (fuel : ℕ) (p p' : Tcp K) (h : SocketHandle) (fd : ℕ) (bytes : List ℕ)
      → is_send_enabled p.config.direction ≡ true
      → is_empty bytes ≡ false
      → ensure_connected os p ≡ (true, p')
      → p'.handle ≡ some h
      → h.socket ≡ some fd
      → length bytes + interruptions p'.kernel ≤ fuel
      → Delivered p' fd bytes (send os fuel p bytes)
  unfolding send after_ensure
  send-Delivered fuel p p' h fd bytes enabled full ready opened connected enough =
      rw (enabled, full, ready) (transmit-Delivered fuel p' h fd bytes opened connected enough)
