-- ===== src/Tcp/Transfer.antt =====
-- `send`, whose loop runs on fuel, and `receive`. The number of bytes or -1 is an integer. `receive` gives
-- the caller's buffer too, which the early returns leave as it is.
pub mod Stream
pub mod Takeover
pub mod Delivery
pub mod Descriptors
use com_lib.Posix.{Os, Answer, done, failed, Errno, interrupted, is_again}
use com_lib.Transport.{
  ErrorCode, unsupported_operation, not_open, send_failed, receive_failed, is_send_enabled,
  is_receive_enabled,
}
use com_lib.Transport.Link.{error_result, LoopRound, loop_round}
use com_lib.Tcp.Defs.{
  SocketHandle, Tcp, report_error, record_send, record_receive, set_healthy, is_server,
}
use com_lib.Tcp.Connection.{is_interrupted, drop_client_connection, reset_server_connection}
use com_lib.Tcp.Reconnect.{ensure_connected}
use com_lib.Prelude.Int.{ℤ, pos}
use com_lib.Prelude.{
  ℕ, zero, suc, ◌+◌, Bool, true, false, not, List, [], ◌∷◌, Option, none, some, length, drop,
  is_empty, ltb, ◌==◌, if◌then◌else◌,
}

-- `kDefaultTcpBufferSize`
abbrev pub default_tcp_buffer_size : ℕ
default_tcp_buffer_size = 4096

-- What one `::send` of the loop leads to: another round with the bytes left, the end, or the error path.
pub data Round : Type 0 where
  continued : List ℕ → ℕ → Round
  stopped broken : ℕ → Round

-- `total` bytes are sent already.
unfoldable pub round : Bool → List ℕ → ℕ → Answer ℕ → Round
round non_blocking bytes total (failed e) =
    if is_interrupted e
    then continued bytes total
    else if is_again e
    then stopped total
    else broken total
round non_blocking bytes total (done sent) =
    if sent == 0
    then stopped total
    else if non_blocking
    then stopped (total + sent)
    else continued (drop sent bytes) (total + sent)

-- How the loop ends: the bytes sent, and whether it ends without an error.
abbrev pub SendEnd : Type 0 → Type 0
SendEnd K = Bool × ℕ × K

-- Goes on as the round says, with the kernel after it.
unfoldable pub resume :
    {K : Type 0} → Round → K → (List ℕ → ℕ → Option (SendEnd K)) → Option (SendEnd K)
resume (continued rest total) k next = next rest total
resume (stopped total) k next = some (true, total, k)
resume (broken total) k next = some (false, total, k)

module _ {K : Type 0} (os : Os K) where
  -- Without fuel the result is `none`.
  unfoldable pub send_loop : ℕ → ℕ → Bool → List ℕ → ℕ → K → Option (SendEnd K)
  unfolding resume round
  send_loop fuel fd non_blocking [] total k = some (true, total, k)
  send_loop zero fd non_blocking (x ∷ xs) total k = none
  send_loop (suc fuel) fd non_blocking (x ∷ xs) total k =
      let answer = os.send_bytes fd (x ∷ xs) k in
      resume (round non_blocking (x ∷ xs) total answer.0) answer.1
        (λ rest total'. send_loop fuel fd non_blocking rest total' answer.1)

  unfoldable pub disconnect : Tcp K → Tcp K
  unfolding reset_server_connection drop_client_connection
  disconnect p =
      if is_server p.config.role then reset_server_connection os p else drop_client_connection os p

  -- What follows the loop.
  unfoldable pub after_loop : SendEnd K → Tcp K → ℤ × Tcp K
  unfolding disconnect
  after_loop (true, total, k) p =
      let p' = record p { kernel = k } in
      (pos total, if ltb 0 total then set_healthy true (record_send total p') else p')
  after_loop (false, total, k) p = (
    if ltb 0 total then pos total else error_result,
    disconnect (set_healthy false (report_error send_failed (record p { kernel = k }))),
  )

  unfoldable pub finish : Option (SendEnd K) → Tcp K → Option (ℤ × Tcp K)
  unfolding after_loop
  finish none p = none
  finish (some result) p = some (after_loop result p)

  unfoldable pub transmit : ℕ → List ℕ → Tcp K → Option (ℤ × Tcp K)
  unfolding send_loop finish
  transmit fuel bytes p = elim p.handle [
    | none ↦ some (error_result, report_error not_open p)
    | some h ↦ elim h.socket [
      | none ↦ some (error_result, report_error not_open p)
      | some fd ↦ finish (send_loop fuel fd p.config.non_blocking bytes 0 p.kernel) p
    ]
  ]

  unfoldable pub after_ensure : ℕ → List ℕ → Bool × Tcp K → Option (ℤ × Tcp K)
  unfolding transmit
  after_ensure fuel bytes (true, p) = transmit fuel bytes p
  after_ensure fuel bytes (false, p) = some (error_result, p)

  unfoldable pub send : ℕ → Tcp K → List ℕ → Option (ℤ × Tcp K)
  unfolding after_ensure ensure_connected
  send fuel p bytes =
      if not (is_send_enabled p.config.direction)
      then some (error_result, report_error unsupported_operation p)
      else if is_empty bytes
      then some (pos 0, p)
      else after_ensure fuel bytes (ensure_connected os p)

  -- What follows `::recv`: a failed call clears the buffer, and no bytes end the connection.
  unfoldable pub after_receive : Answer (List ℕ) × K → Tcp K → ℤ × List ℕ × Tcp K
  unfolding disconnect
  after_receive (failed e, k) p =
      let p' = record p { kernel = k } in
      if is_interrupted e
      then (pos 0, [], p')
      else if is_again e
      then (pos 0, [], p')
      else (error_result, [], disconnect (set_healthy false (report_error receive_failed p')))
  after_receive (done [], k) p =
      (pos 0, [], disconnect (set_healthy false (record p { kernel = k })))
  after_receive (done (x ∷ xs), k) p =
      let n = length (x ∷ xs) in
      (pos n, x ∷ xs, set_healthy true (record_receive n (record p { kernel = k })))

  unfoldable pub take_in : ℕ → List ℕ → Bool × Tcp K → ℤ × List ℕ × Tcp K
  unfolding after_receive
  take_in max_size buffer (false, p) = (error_result, buffer, p)
  take_in max_size buffer (true, p) = elim p.handle [
    | none ↦ (error_result, buffer, report_error not_open p)
    | some h ↦ elim h.socket [
      | none ↦ (error_result, buffer, report_error not_open p)
      | some fd ↦ after_receive (os.receive_bytes fd max_size p.kernel) p
    ]
  ]

  unfoldable pub receive : Tcp K → List ℕ → ℕ → ℤ × List ℕ × Tcp K
  unfolding take_in ensure_connected
  receive p buffer max_size =
      if not (is_receive_enabled p.config.direction)
      then (error_result, buffer, report_error unsupported_operation p)
      else if max_size == 0
      then (pos 0, buffer, p)
      else take_in max_size buffer (ensure_connected os p)

  -- A round of `receiveLoop`.
  unfoldable pub receive_round : Tcp K → LoopRound × Tcp K
  unfolding receive
  receive_round p =
      let (result, buffer, q) = receive p [] default_tcp_buffer_size in
      (loop_round result buffer p.config.receive_thread_sleep, q)
