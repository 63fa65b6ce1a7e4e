-- ===== src/SocketCan/Transfer.antt =====
-- `send`, `receive`, `readFrame` and `writeFrame`.
-- The number of bytes or -1 is an integer. `receive` gives the caller's buffer too; the early errors
-- leave it as it is.
pub mod Laws
use com_lib.Posix.{Os, Answer, done, failed, is_again, NativeFrame}
use com_lib.Transport.Link.{error_result, LoopRound, loop_round}
use com_lib.Transport.{
  ErrorCode, unsupported_operation, not_open, send_failed, receive_failed, is_send_enabled,
  is_receive_enabled,
}
use com_lib.SocketCan.Defs.{
  SocketCanConfig, CanFrame, SocketCan, payload_limit, report_error, record_send, record_receive,
  set_healthy,
}
use com_lib.SocketCan.Frames.{encode, encode_fd, decode, decode_fd, copy_into}
use com_lib.Prelude.Int.{ℤ, pos}
use com_lib.Prelude.{
  ℕ, ◌%◌, ◌^◌, min, Bool, true, false, ◌&&◌, ◌||◌, not, List, [], ◌∷◌, Option, none, some, length,
  take, is_empty, if◌then◌else◌,
}

module _ {K : Type 0} (os : Os K) where
  -- The frame that `send` makes of the first bytes.
  unfoldable pub payload_frame : Bool → List ℕ → NativeFrame
  payload_frame is_fd bytes =
      let n = min (length bytes) (payload_limit is_fd) in
      record { can_id = 0; length = n % 2 ^ 8; bytes = copy_into (payload_limit is_fd) n bytes }

  -- What follows the write of a frame with `n` bytes.
  unfoldable pub after_write : ℕ → Answer ℕ × K → SocketCan K → ℤ × SocketCan K
  after_write n (failed e, k) p = (error_result, report_error send_failed (record p { kernel = k }))
  after_write n (done written, k) p = (pos n, record_send n (record p { kernel = k }))

  unfoldable pub send : SocketCan K → List ℕ → ℤ × SocketCan K
  unfolding after_write
  send p bytes =
      if not (is_send_enabled p.config.direction)
      then (error_result, report_error unsupported_operation p)
      else elim p.socket [
        | none ↦ (error_result, report_error not_open p)
        | some fd ↦
            if is_empty bytes
            then (pos 0, p)
            else let is_fd = p.config.enable_fd in
              after_write (min (length bytes) (payload_limit is_fd))
                (os.write_frame fd is_fd (payload_frame is_fd bytes) p.kernel) p
      ]

  -- What follows the read of a frame.
  unfoldable pub after_read : ℕ → Answer NativeFrame × K → SocketCan K → ℤ × List ℕ × SocketCan K
  after_read max_size (failed e, k) p =
      let p' = record p { kernel = k } in
      if is_again e
      then (pos 0, [], p')
      else (error_result, [], set_healthy false (report_error receive_failed p'))
  after_read max_size (done frame, k) p =
      let buffer = take (min frame.length max_size) frame.bytes in
      (
        pos (length buffer),
        buffer,
        set_healthy true (record_receive (length buffer) (record p { kernel = k })),
      )

  unfoldable pub receive : SocketCan K → List ℕ → ℕ → ℤ × List ℕ × SocketCan K
  unfolding after_read
  receive p buffer max_size =
      if not (is_receive_enabled p.config.direction)
      then (error_result, buffer, report_error unsupported_operation p)
      else elim p.socket [
        | none ↦ (error_result, buffer, report_error not_open p)
        | some fd ↦ after_read max_size (os.read_frame fd p.config.enable_fd p.kernel) p
      ]

  unfoldable pub after_frame : Answer NativeFrame × K → SocketCan K → Option CanFrame × SocketCan K
  after_frame (failed e, k) p = (none, record p { kernel = k })
  after_frame (done native, k) p = (
    some (if p.config.enable_fd then decode_fd native else decode native),
    record p { kernel = k },
  )

  unfoldable pub read_frame : SocketCan K → Option CanFrame × SocketCan K
  unfolding after_frame
  read_frame p = elim p.socket [
    | none ↦ (none, p)
    | some fd ↦ after_frame (os.read_frame fd p.config.enable_fd p.kernel) p
  ]

  unfoldable pub after_frame_write : ℕ → Answer ℕ × K → SocketCan K → Bool × SocketCan K
  after_frame_write n (failed e, k) p = (false, report_error send_failed (record p { kernel = k }))
  after_frame_write n (done written, k) p = (true, record_send n (record p { kernel = k }))

  unfoldable pub write_frame : SocketCan K → CanFrame → Bool × SocketCan K
  unfolding after_frame_write
  write_frame p frame = elim p.socket [
    | none ↦ (false, p)
    | some fd ↦
        let is_fd = frame.fd_frame && p.config.enable_fd in
        let native = if is_fd then encode_fd frame else encode frame in
        after_frame_write native.length (os.write_frame fd is_fd native p.kernel) p
  ]

  -- A round of `receiveLoop`.
  unfoldable pub receive_round : SocketCan K → LoopRound × SocketCan K
  unfolding receive
  receive_round p =
      let (result, buffer, q) = receive p [] (payload_limit p.config.enable_fd) in
      (loop_round result buffer p.config.receive_thread_sleep, q)
