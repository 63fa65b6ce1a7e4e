-- ===== src/Pcan/Transfer.antt =====
-- Sending and receiving: `send` and `receive`, with the copies between the caller's bytes, the fixed
-- buffer on the stack and the frame of the driver.
-- The number of bytes or -1 is an integer. `now` is the time that `recordSuccess` reads. The second
-- test of the status in `send` can not be reached, both modes having returned, and is left out.
pub mod Payload
pub mod Laws
pub mod Intake
use com_lib.Buffer.{FixedBuffer, new_buffer, push_back, at}
use com_lib.Memory.{bounded_for, clip}
use com_lib.Transport.{
  ErrorCode, unsupported_operation, invalid_configuration, not_open, send_failed, receive_failed,
  is_send_enabled, is_receive_enabled,
}
use com_lib.Pcan.Defs.{
  Message, Driver, PcanBasic, can_max_payload, can_fd_max_payload, get_payload_limit,
  is_valid_can_payload, assert, report_error, record_send, record_receive, record_success,
  record_failure,
}
use com_lib.Pcan.Lifecycle.{recover_if_needed}
use com_lib.Prelude.Int.{ℤ, pos, negsuc}
use com_lib.Prelude.{
  ℕ, ◌%◌, ◌^◌, Bool, true, false, not, List, [], ◌∷◌, ◌++◌, Option, none, some, ltb, leb, ◌==◌,
  if◌then◌else◌, length, get_or, set, replicate,
}

abbrev pub failed : ℤ
failed = negsuc 0

-- The copy of `count` bytes into the fixed buffer, in a loop of at most `rounds`.
unfoldable pub put_byte : List ℕ → ℕ → FixedBuffer ℕ → FixedBuffer ℕ
put_byte source i payload = (push_back can_fd_max_payload payload (get_or source i 0)).1

unfoldable pub fill_payload : ℕ → ℕ → List ℕ → FixedBuffer ℕ
fill_payload rounds count source =
    bounded_for rounds 0 count (put_byte source) (new_buffer can_fd_max_payload 0)

-- The array `DATA`, zeros at first, written from the fixed buffer.
unfoldable pub put_data : FixedBuffer ℕ → ℕ → List ℕ → List ℕ
put_data payload i bytes = elim (at can_fd_max_payload payload i) [
  | none ↦ bytes
  | some byte ↦ set bytes i byte
]

unfoldable pub frame_bytes : ℕ → FixedBuffer ℕ → List ℕ
frame_bytes size payload = bounded_for size 0 payload.size (put_data payload) (replicate size 0)

-- The caller's buffer, empty at first, filled from the fixed buffer.
unfoldable pub put_back : FixedBuffer ℕ → ℕ → List ℕ → List ℕ
put_back payload i buffer = elim (at can_fd_max_payload payload i) [
  | none ↦ buffer
  | some byte ↦ buffer ++ byte ∷ []
]

unfoldable pub read_back : FixedBuffer ℕ → List ℕ
read_back payload = bounded_for can_fd_max_payload 0 payload.size (put_back payload) []

abbrev pub is_empty : List ℕ → Bool
is_empty [] = true
is_empty _ = false

-- The conditional that picks the smaller number.
abbrev pub smaller : ℕ → ℕ → ℕ
smaller a b = if ltb a b then a else b

module _ {D : Type 0} (drv : Driver D) where
  open drv use {
    error_ok, error_qrcvempty, message_standard, can_write, can_write_fd, can_read, can_read_fd,
  }

  unfoldable pub make_message : Bool → FixedBuffer ℕ → Message
  make_message is_fd payload = record {
    id = 0;
    length = payload.size % 2 ^ 8;
    msgtype = message_standard;
    bytes = frame_bytes (get_payload_limit is_fd) payload;
  }

  unfoldable pub write_frame : PcanBasic D → FixedBuffer ℕ → ℕ × D
  write_frame p payload =
      if p.config.enable_fd
      then can_write_fd p.config.handle (make_message true payload) p.device
      else can_write p.config.handle (make_message false payload) p.device

  -- What follows a frame that the driver refused, with its status.
  unfoldable pub after_refusal : ErrorCode → PcanBasic D → ℕ → Option (PcanBasic D)
  after_refusal code p status =
      elim (recover_if_needed drv (record_failure (report_error code p)) status) [
        | none ↦ none
        | some (_, p') ↦ some p'
      ]

  -- From the write of the frame on.
  unfoldable pub transmit : PcanBasic D → ℕ → FixedBuffer ℕ → ℕ → Option (ℤ × PcanBasic D)
  transmit p limit payload now = assert (leb payload.size limit) (
      let (status, d) = write_frame p payload in
      let p1 = record p { device = d } in
      if not (status == error_ok)
      then (elim (after_refusal send_failed p1 status) [
        | none ↦ none
        | some p2 ↦ some (failed, p2)
      ])
      else assert (leb payload.size limit) (
          some (
            pos payload.size,
            record (record_success (record_send payload.size p1) now) { healthy = true },
          )))

  -- A payload of the wrong size is reported, and sent all the same.
  unfoldable pub check_size : PcanBasic D → List ℕ → PcanBasic D
  check_size p bytes =
      if not (is_valid_can_payload (length bytes) p.config.enable_fd)
      then report_error invalid_configuration p
      else p

  unfoldable pub send : PcanBasic D → List ℕ → ℕ → Option (ℤ × PcanBasic D)
  send p bytes now =
      if not (is_send_enabled p.config.direction)
      then some (failed, report_error unsupported_operation p)
      else if is_empty bytes
      then some (pos 0, p)
      else let p1 = check_size p bytes in
        if not p1.initialized
        then some (failed, record_failure (report_error not_open p1))
        else let limit = get_payload_limit p1.config.enable_fd in
          transmit p1 limit (fill_payload can_fd_max_payload (clip (length bytes) limit) bytes) now

  unfoldable pub read_frame : PcanBasic D → ℕ × Message × D
  read_frame p =
      if p.config.enable_fd
      then can_read_fd p.config.handle p.device
      else can_read p.config.handle p.device

  -- From the copy to the caller's buffer on.
  unfoldable pub hand_out : PcanBasic D → ℕ → FixedBuffer ℕ → ℕ → Option (ℤ × List ℕ × PcanBasic D)
  hand_out p limit payload now =
      let out = read_back payload in
      assert (leb (length out) limit) (
        some (
          pos (length out),
          out,
          record (record_success (record_receive (length out) p) now) { healthy = true },
        ))

  -- From the read of a frame on: the result, the caller's buffer and the state.
  unfoldable pub take_frame : PcanBasic D → List ℕ → ℕ → ℕ → Option (ℤ × List ℕ × PcanBasic D)
  take_frame p buffer limit now =
      let (status, message, d) = read_frame p in
      let p1 = record p { device = d } in
      if status == error_qrcvempty
      then some (pos 0, buffer, p1)
      else if not (status == error_ok)
      then (elim (after_refusal receive_failed p1 status) [
        | none ↦ none
        | some p2 ↦ some (failed, [], record p2 { healthy = false })
      ])
      else hand_out p1 limit
          (fill_payload (get_payload_limit p.config.enable_fd) (smaller message.length limit)
            message.bytes)
          now

  unfoldable pub receive : PcanBasic D → List ℕ → ℕ → ℕ → Option (ℤ × List ℕ × PcanBasic D)
  receive p buffer max_size now =
      if not (is_receive_enabled p.config.direction)
      then some (failed, [], report_error unsupported_operation p)
      else let limit = smaller max_size (get_payload_limit p.config.enable_fd) in
        if limit == 0
        then some (pos 0, [], p)
        else if not p.initialized
        then some (failed, [], p)
        else take_frame p buffer limit now
