-- ===== src/Crc.antt =====
-- The CRC32 of include/comm/core/safety.hpp: the lookup table, the checksum of a buffer, and the
-- check and the writing of a checksum behind a payload.
-- A buffer is an optional list of bytes: `none` is the null pointer. A `uint32_t` is a number that
-- every operation keeps below 2 ^ 32; `>> k` is `/ 2 ^ k` and a cast to a byte is `% 256`.
pub mod Linear
pub mod Reference
pub mod Frame
pub mod Burst
mod Tests
use com_lib.Prelude.{
  ℕ, zero, suc, ◌+◌, ◌-◌, ◌*◌, ◌/◌, ◌%◌, ◌^◌, bit_or, bit_xor, Bool, false, List, [], ◌∷◌, Option,
  none, some, ltb, ◌==◌, if◌then◌else◌, get_or, set, ◌≡◌, refl,
}

abbrev pub crc32_polynomial : ℕ
crc32_polynomial = 0xEDB88320

abbrev pub all_ones : ℕ
all_ones = 0xFFFFFFFF

-- One round of the table's inner loop.
unfoldable pub bit_step : ℕ → ℕ
bit_step crc = bit_xor (crc / 2) (if crc % 2 == 1 then crc32_polynomial else 0)

-- The inner loop, with the rounds that are left.
unfoldable pub bit_loop : ℕ → ℕ → ℕ
unfolding bit_step
bit_loop zero crc = crc
bit_loop (suc j) crc = bit_loop j (bit_step crc)

-- The outer loop: the entries from `i` on.
pub table_from : ℕ → ℕ → List ℕ
table_from zero i = []
table_from (suc n) i = bit_loop 8 i ∷ table_from n (suc i)

pub crc32_table : List ℕ
unfolding table_from bit_loop
crc32_table = table_from 256 0

-- `kCrc32Table[index]`; the index is a byte, so it is in range.
pub table_at : ℕ → ℕ
unfolding crc32_table
table_at index = get_or crc32_table index 0

pub byte_step : ℕ → ℕ → ℕ
unfolding table_at
byte_step crc byte = bit_xor (crc / 2 ^ 8) (table_at (bit_xor crc byte % 2 ^ 8))

-- The loop over the buffer, with the bytes that are left to read. A read past the end of the
-- buffer is undefined in the source; here the loop stops.
pub crc_loop : ℕ → List ℕ → ℕ → ℕ
unfolding byte_step
crc_loop zero bytes crc = crc
crc_loop (suc n) [] crc = crc
crc_loop (suc n) (b ∷ bytes) crc = crc_loop n bytes (byte_step crc b)

unfoldable pub calculate_crc32 : Option (List ℕ) → ℕ → ℕ → ℕ
unfolding crc_loop
calculate_crc32 none length initial_crc = bit_xor initial_crc all_ones
calculate_crc32 (some bytes) length initial_crc =
    if length == 0
    then bit_xor initial_crc all_ones
    else bit_xor (crc_loop length bytes initial_crc) all_ones

-- `x << k` on a `uint32_t`.
abbrev pub shift_left : ℕ → ℕ → ℕ
shift_left x k = x * 2 ^ k % 2 ^ 32

-- The little-endian word at an offset.
pub stored_crc : List ℕ → ℕ → ℕ
stored_crc bytes at =
    bit_or
      (bit_or
        (bit_or (bit_or 0 (shift_left (get_or bytes (at + 0) 0) 0))
          (shift_left (get_or bytes (at + 1) 0) 8))
        (shift_left (get_or bytes (at + 2) 0) 16))
      (shift_left (get_or bytes (at + 3) 0) 24)

unfoldable pub verify_crc32 : Option (List ℕ) → ℕ → Bool
unfolding calculate_crc32 stored_crc
verify_crc32 none length = false
verify_crc32 (some bytes) length =
    if ltb length 4
    then false
    else calculate_crc32 (some bytes) (length - 4) all_ones == stored_crc bytes (length - 4)

-- The buffer after the four writes.
unfoldable pub append_crc32 : Option (List ℕ) → ℕ → Option (List ℕ)
unfolding calculate_crc32
append_crc32 none payload_length = none
append_crc32 (some bytes) payload_length =
    let crc = calculate_crc32 (some bytes) payload_length all_ones in
    let b0 = set bytes (payload_length + 0) (crc / 2 ^ 0 % 2 ^ 8) in
    let b1 = set b0 (payload_length + 1) (crc / 2 ^ 8 % 2 ^ 8) in
    let b2 = set b1 (payload_length + 2) (crc / 2 ^ 16 % 2 ^ 8) in
    some (set b2 (payload_length + 3) (crc / 2 ^ 24 % 2 ^ 8))

-- The check value of CRC-32: the text "123456789" gives 0xCBF43926.
check_value :
    calculate_crc32
      (some (0x31 ∷ 0x32 ∷ 0x33 ∷ 0x34 ∷ 0x35 ∷ 0x36 ∷ 0x37 ∷ 0x38 ∷ 0x39 ∷ []))
      9
      all_ones
    ≡ 0xCBF43926
unfolding calculate_crc32
check_value = refl
