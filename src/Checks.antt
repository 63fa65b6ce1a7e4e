-- ===== src/Checks.antt =====
-- The input checks, the frame header and the clamped value of include/comm/core/safety.hpp.
-- A `size_t` or `uintN_t` argument is a number; a `bool` is a `Bool`.
pub mod Laws
use com_lib.Prelude.{
  ℕ, ◌+◌, ◌≤◌, ◌^◌, Bool, true, false, ◌&&◌, ◌||◌, not, List, [], ◌∷◌, ltb, leb, ◌==◌,
  if◌then◌else◌, Option, none, some,
}

abbrev pub max_message_size : ℕ
max_message_size = 65536

abbrev pub min_message_size : ℕ
min_message_size = 1

pub is_valid_message_size : ℕ → ℕ → Bool
is_valid_message_size size max_size = leb min_message_size size && leb size max_size

-- The argument is whether the pointer is set.
pub is_valid_pointer {ℓ} : {A : Type ℓ} → Option A → Bool
is_valid_pointer none = false
is_valid_pointer (some a) = true

pub is_valid_can_id : ℕ → Bool → Bool
is_valid_can_id id extended = leb id (if extended then 0x1FFFFFFF else 0x7FF)

pub is_valid_port : ℕ → Bool
is_valid_port port = ltb 0 port

abbrev pub valid_rates : List ℕ
valid_rates =
    9600 ∷ 19200 ∷ 38400 ∷ 57600 ∷ 115200 ∷ 230400 ∷ 460800 ∷ 921600 ∷ 1000000 ∷ 2000000 ∷ 3000000
    ∷ []

-- The loop over the table.
any_rate : ℕ → List ℕ → Bool
any_rate baud_rate [] = false
any_rate baud_rate (rate ∷ rates) = if baud_rate == rate then true else any_rate baud_rate rates

-- A baud rate is an `int`; the table has no negative entry, so only numbers matter.
pub is_valid_baud_rate : ℕ → Bool
unfolding any_rate
is_valid_baud_rate baud_rate = any_rate baud_rate valid_rates

abbrev pub frame_magic : ℕ
frame_magic = 0x4156494F

pub record SafeFrameHeader : Type 0 where
  pub magic : ℕ
  pub sequence : ℕ
  pub timestamp : ℕ
  pub payload_length : ℕ
  pub reserved : ℕ

abbrev pub new_header : SafeFrameHeader
new_header = record {
  magic = frame_magic;
  sequence = 0;
  timestamp = 0;
  payload_length = 0;
  reserved = 0;
}

-- `sizeof(SafeFrameHeader)`, which the source asserts.
abbrev pub header_size : ℕ
header_size = 16

pub calculate_frame_size : ℕ → ℕ
calculate_frame_size payload_length = header_size + payload_length + 4

pub is_valid_frame_header : SafeFrameHeader → Bool
is_valid_frame_header header =
    if not (header.magic == frame_magic)
    then false
    else if ltb max_message_size header.payload_length
    then false
    else true

-- `BoundedValue<T, MinVal, MaxVal>` over any type with a comparison.
module _ {ℓ} {T : Type ℓ} (lt : T → T → Bool) (min_val max_val : T) where
  pub clamp : T → T
  clamp value = if lt value min_val then min_val else if lt max_val value then max_val else value

  pub bounded_default : T
  bounded_default = min_val

  pub bounded : T → T
  unfolding clamp
  bounded value = clamp value

  pub assign : T → T → T
  unfolding clamp
  assign old value = clamp value
