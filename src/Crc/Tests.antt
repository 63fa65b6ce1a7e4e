-- ===== src/Crc/Tests.antt =====
-- The theorems on the checksum at concrete buffers.
use com_lib.Crc.{all_ones, calculate_crc32, verify_crc32, append_crc32}
use com_lib.Crc.Reference.{IsBytes, reference_loop, calculate_crc32-reference}
use com_lib.Crc.Frame.{le_bytes, le_word, verify_crc32-exact, verify-append_crc32}
use com_lib.Crc.Burst.{verify_crc32_burst}
use com_lib.Prelude.{ℕ, bit_xor, List, [], ◌∷◌, ◌++◌, some, true, false, ◌≡◌, ◌↔◌, refl, arith}

abbrev three_bytes : List ℕ
three_bytes = 0x31 ∷ 0x32 ∷ 0xFF ∷ []

abbrev one_byte : List ℕ
one_byte = 0x80 ∷ []

abbrev other_byte : List ℕ
other_byte = 0x00 ∷ []

three_bytes-IsBytes : IsBytes three_bytes
three_bytes-IsBytes = (omega arith, (omega arith, (omega arith, tt)))

calculate_crc32-reference_example :
    calculate_crc32 (some three_bytes) 3 all_ones
    ≡ bit_xor (reference_loop three_bytes all_ones) all_ones
calculate_crc32-reference_example =
    calculate_crc32-reference three_bytes all_ones three_bytes-IsBytes

verify_crc32-exact_example :
    (verify_crc32 (some (three_bytes ++ 1 ∷ 2 ∷ 3 ∷ 4 ∷ [])) 7 ≡ true)
    ↔ (calculate_crc32 (some three_bytes) 3 all_ones ≡ le_word 1 2 3 4)
verify_crc32-exact_example =
    verify_crc32-exact three_bytes 1 2 3 4 [] (omega arith) (omega arith) (omega arith)
      (omega arith)

verify-append_crc32_example :
    verify_crc32 (append_crc32 (some (three_bytes ++ 0 ∷ 0 ∷ 0 ∷ 0 ∷ [])) 3) 7 ≡ true
verify-append_crc32_example = verify-append_crc32 three_bytes 0 0 0 0 []

verify_crc32_burst_example :
    let crc = calculate_crc32 (some (three_bytes ++ one_byte ++ three_bytes)) 7 all_ones in
    verify_crc32 (some ((three_bytes ++ other_byte ++ three_bytes) ++ le_bytes crc [])) 11 ≡ false
verify_crc32_burst_example =
    verify_crc32_burst three_bytes one_byte other_byte three_bytes [] three_bytes-IsBytes
      (omega arith, tt) (omega arith, tt) three_bytes-IsBytes refl (omega arith)
      (λ e. ground (arith, e))
