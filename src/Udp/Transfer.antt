-- ===== src/Udp/Transfer.antt =====
-- `send` and `receive`. The number of bytes or -1 is an integer. `receive` gives the caller's buffer too,
-- which the early returns leave as it is.
pub mod Laws
use com_lib.Posix.{Os, Answer, done, failed, Errno, interrupted, bad_descriptor, is_again}
use com_lib.Transport.{
  ErrorCode, unsupported_operation, not_open, invalid_configuration, send_failed, receive_failed,
  is_send_enabled, is_receive_enabled,
}
use com_lib.Transport.Link.{error_result, LoopRound, loop_round}
use com_lib.Udp.Defs.{
  UdpConfig, UdpHandle, Udp, max_udp_datagram_size, report_error, record_send, record_receive,
  set_healthy,
}
use com_lib.Prelude.Int.{ℤ, pos}
use com_lib.Prelude.{
  ℕ, Bool, true, false, ◌&&◌, not, List, [], Option, none, some, length, take, is_empty,
  if◌then◌else◌,
}

-- The text of the address to send to.
abbrev pub target_address : UdpConfig → List ℕ
target_address c = if is_empty c.remote.address then c.multicast_group else c.remote.address

-- `errno == EINTR || errno == EBADF`
abbrev pub ends_receive : Errno → Bool
ends_receive interrupted = true
ends_receive bad_descriptor = true
ends_receive _ = false

module _ {K : Type 0} (os : Os K) where
  unfoldable pub after_send : Answer ℕ × K → Udp K → ℤ × Udp K
  after_send (failed e, k) p = (error_result, report_error send_failed (record p { kernel = k }))
  after_send (done sent, k) p = (pos sent, record_send sent (record p { kernel = k }))

  -- The address is parsed, but `::send` does not take it.
  unfoldable pub send : Udp K → List ℕ → ℤ × Udp K
  unfolding after_send
  send p bytes =
      if not (is_send_enabled p.config.direction)
      then (error_result, report_error unsupported_operation p)
      else elim p.handle [
        | none ↦ (error_result, report_error not_open p)
        | some h ↦
            if is_empty (target_address p.config)
            then (error_result, report_error invalid_configuration p)
            else elim (os.parse_address (target_address p.config)) [
              | none ↦ (error_result, report_error invalid_configuration p)
              | some address ↦
                  after_send (os.send_bytes h.socket (take max_udp_datagram_size bytes) p.kernel) p
            ]
      ]

  unfoldable pub after_receive : Answer (List ℕ) × K → Udp K → ℤ × List ℕ × Udp K
  after_receive (failed e, k) p =
      let p' = record p { kernel = k } in
      if is_again e
      then (pos 0, [], p')
      else if not p'.link.running && ends_receive e
      then (error_result, [], p')
      else (error_result, [], set_healthy false (report_error receive_failed p'))
  after_receive (done bytes, k) p = (
    pos (length bytes),
    bytes,
    set_healthy true (record_receive (length bytes) (record p { kernel = k })),
  )

  unfoldable pub receive : Udp K → List ℕ → ℕ → ℤ × List ℕ × Udp K
  unfolding after_receive
  receive p buffer max_size =
      if not (is_receive_enabled p.config.direction)
      then (error_result, buffer, report_error unsupported_operation p)
      else elim p.handle [
        | none ↦ (error_result, buffer, report_error not_open p)
        | some h ↦ after_receive (os.receive_bytes h.socket max_size p.kernel) p
      ]

  -- A round of `receiveLoop`.
  unfoldable pub receive_round : Udp K → LoopRound × Udp K
  unfolding receive
  receive_round p =
      let (result, buffer, q) = receive p [] max_udp_datagram_size in
      (loop_round result buffer p.config.receive_thread_sleep, q)
