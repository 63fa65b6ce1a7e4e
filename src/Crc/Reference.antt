-- ===== src/Crc/Reference.antt =====
-- The table-driven checksum against the bit-by-bit definition of CRC-32.
use native.Mathlib.Nat.{mod-add-div'}
use com_lib.Bits.Xor.{xor-zero, xor-div_pow, xor-lt_pow, xor_comm}
use com_lib.Bits.Fields.{xor_fields}
use com_lib.Crc.{all_ones, bit_loop, table_from, table_at, byte_step, crc_loop, calculate_crc32}
use com_lib.Crc.Linear.{bit_loop-xor, bit_loop-shift, bit_loop-lt}
use com_lib.Prelude.{
  ℕ, zero, suc, ◌+◌, ◌*◌, ◌/◌, ◌%◌, ◌^◌, ◌<◌, bit_xor, List, [], ◌∷◌, ◌++◌, some, ◌≡◌, refl, sym,
  ◌∙◌, ap, length, get_or, arith,
}

-- Every item of a buffer is a byte.
abbrev pub IsBytes : List ℕ → Type 0
IsBytes [] = Unit {0}
IsBytes (b ∷ bs) = (b < 256) × IsBytes bs

-- CRC-32 one bit at a time: a byte is added to the low end, and eight rounds follow.
unfoldable pub reference_loop : List ℕ → ℕ → ℕ
reference_loop [] crc = crc
reference_loop (b ∷ bs) crc = reference_loop bs (bit_loop 8 (bit_xor crc b))

table_from-get : (n i j : ℕ) → j < n → get_or (table_from n i) j 0 ≡ bit_loop 8 (i + j)
unfolding table_from
table_from-get zero i j h = absurd (omega arith)
table_from-get (suc n) i zero h = ap (bit_loop 8) (omega arith)
table_from-get (suc n) i (suc j) h =
    table_from-get n (suc i) j (omega arith) ∙ ap (bit_loop 8) (omega arith)

table_at_lem : (i : ℕ) → i < 256 → table_at i ≡ bit_loop 8 i
unfolding table_at
table_at_lem i h = table_from-get 256 0 i h ∙ ap (bit_loop 8) (omega arith)

-- Eight rounds split into the part that the table holds and a shift.
pub bit_loop_split : (x y : ℕ) → x < 2 ^ 8 → bit_loop 8 (x + y * 2 ^ 8) ≡ bit_xor (bit_loop 8 x) y
bit_loop_split x y h =
    ap (bit_loop 8) (sym (xor_fields 8 y x h))
    ∙ bit_loop-xor 8 x (y * 2 ^ 8)
    ∙ ap (bit_xor (bit_loop 8 x)) (bit_loop-shift 8 y)

byte-high : (crc b : ℕ) → b < 256 → bit_xor crc b / 2 ^ 8 ≡ crc / 2 ^ 8
byte-high crc b h =
    xor-div_pow 8 crc b ∙ ap (bit_xor (crc / 2 ^ 8)) (omega arith) ∙ xor-zero (crc / 2 ^ 8)

-- One step of the table is eight rounds.
pub byte_step_lem : (crc b : ℕ) → b < 256 → byte_step crc b ≡ bit_loop 8 (bit_xor crc b)
unfolding byte_step
byte_step_lem crc b h =
    ap (bit_xor (crc / 2 ^ 8)) (table_at_lem (low % 2 ^ 8) (omega arith))
    ∙ xor_comm (crc / 2 ^ 8) (bit_loop 8 (low % 2 ^ 8))
    ∙ ap (bit_xor (bit_loop 8 (low % 2 ^ 8))) (sym (byte-high crc b h))
    ∙ sym (bit_loop_split (low % 2 ^ 8) (low / 2 ^ 8) (omega arith))
    ∙ ap (bit_loop 8) (mod-add-div' low (2 ^ 8))
  where
    low : ℕ
    low = bit_xor crc b

pub crc_loop-reference :
    (bytes : List ℕ) (crc : ℕ)
    → IsBytes bytes
    → crc_loop (length bytes) bytes crc ≡ reference_loop bytes crc
unfolding crc_loop reference_loop
crc_loop-reference [] crc h = refl
crc_loop-reference (b ∷ bs) crc h =
    crc_loop-reference bs (byte_step crc b) h.1 ∙ ap (reference_loop bs) (byte_step_lem crc b h.0)

-- For every buffer of bytes and every initial value, the table-driven `calculateCrc32` gives the
-- bit-by-bit checksum.
pub calculate_crc32-reference :
    (bytes : List ℕ) (initial : ℕ)
    → IsBytes bytes
    → calculate_crc32 (some bytes) (length bytes) initial
      ≡ bit_xor (reference_loop bytes initial) all_ones
unfolding calculate_crc32 reference_loop
calculate_crc32-reference [] initial h = refl
calculate_crc32-reference (b ∷ bs) initial h = ground (arith, crc_loop-reference (b ∷ bs) initial h)

-- The checksum always fits 32 bits.
pub byte_step-lt : (crc b : ℕ) → crc < 2 ^ 32 → byte_step crc b < 2 ^ 32
unfolding byte_step
byte_step-lt crc b h = xor-lt_pow 32 (crc / 2 ^ 8) _ (omega arith) (
    omega (
      arith,
      table_at_lem (bit_xor crc b % 2 ^ 8) (omega arith),
      bit_loop-lt 8 (bit_xor crc b % 2 ^ 8) (omega arith),
    ))

pub crc_loop-lt : (n : ℕ) (bytes : List ℕ) (crc : ℕ) → crc < 2 ^ 32 → crc_loop n bytes crc < 2 ^ 32
unfolding crc_loop
crc_loop-lt zero bytes crc h = h
crc_loop-lt (suc n) [] crc h = h
crc_loop-lt (suc n) (b ∷ bytes) crc h = crc_loop-lt n bytes (byte_step crc b) (byte_step-lt crc b h)

pub calculate_crc32-lt :
    (bytes : List ℕ) (n initial : ℕ)
    → initial < 2 ^ 32
    → calculate_crc32 (some bytes) n initial < 2 ^ 32
unfolding calculate_crc32
calculate_crc32-lt bytes n initial h = ground (
  arith,
  xor-lt_pow 32 initial all_ones h (omega arith),
  xor-lt_pow 32 (crc_loop n bytes initial) all_ones (crc_loop-lt n bytes initial h) (omega arith),
)

pub IsBytes-append : (xs ys : List ℕ) → IsBytes xs → IsBytes ys → IsBytes (xs ++ ys)
IsBytes-append [] ys hx hy = hy
IsBytes-append (x ∷ xs) ys hx hy = (hx.0, IsBytes-append xs ys hx.1 hy)
