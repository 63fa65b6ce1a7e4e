-- ===== src/SocketCan/Frames.antt =====
-- A `CANFrame` and the frame of the kernel. The identifier shares its word with the flags.
pub mod RoundTrip
use com_lib.Posix.{NativeFrame}
use com_lib.SocketCan.Defs.{CanFrame, can_max_dlen, canfd_max_dlen}
use com_lib.Prelude.{
  ℕ, ◌+◌, ◌-◌, ◌%◌, ◌^◌, Bool, true, false, not, List, [], ◌∷◌, ◌++◌, length, take, replicate, min,
  bit_and, bit_or, ◌==◌, if◌then◌else◌,
}

-- CAN_EFF_MASK, CAN_EFF_FLAG and CAN_ERR_FLAG of linux/can.h.
abbrev pub eff_mask : ℕ
eff_mask = 0x1FFFFFFF

abbrev pub eff_flag : ℕ
eff_flag = 0x80000000

abbrev pub err_flag : ℕ
err_flag = 0x20000000

-- `std::min<std::uint8_t>` takes the size modulo 256.
abbrev pub data_length : ℕ → List ℕ → ℕ
data_length limit bytes = min (length bytes % 2 ^ 8) limit

-- The array of `limit` bytes, zeros at first, with the first `n` bytes copied in.
abbrev pub copy_into : ℕ → ℕ → List ℕ → List ℕ
copy_into limit n bytes = take n bytes ++ replicate (limit - n) 0

unfoldable pub encode_fd : CanFrame → NativeFrame
encode_fd frame =
    let id = bit_and frame.id eff_mask in
    let n = data_length canfd_max_dlen frame.bytes in
    record {
      can_id = if frame.extended then bit_or id eff_flag else id;
      length = n;
      bytes = copy_into canfd_max_dlen n frame.bytes;
    }

unfoldable pub encode : CanFrame → NativeFrame
encode frame =
    let id = bit_and frame.id eff_mask in
    let flagged = if frame.extended then bit_or id eff_flag else id in
    let n = data_length can_max_dlen frame.bytes in
    record {
      can_id = if frame.error_frame then bit_or flagged err_flag else flagged;
      length = n;
      bytes = copy_into can_max_dlen n frame.bytes;
    }

unfoldable pub decode_fd : NativeFrame → CanFrame
decode_fd native = record {
  id = bit_and native.can_id eff_mask;
  extended = not (bit_and native.can_id eff_flag == 0);
  fd_frame = true;
  error_frame = false;
  dlc = native.length;
  bytes = take native.length native.bytes;
}

unfoldable pub decode : NativeFrame → CanFrame
decode native = record {
  id = bit_and native.can_id eff_mask;
  extended = not (bit_and native.can_id eff_flag == 0);
  fd_frame = false;
  error_frame = not (bit_and native.can_id err_flag == 0);
  dlc = native.length;
  bytes = take native.length native.bytes;
}
