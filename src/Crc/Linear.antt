-- ===== src/Crc/Linear.antt =====
-- The bit step of the checksum is linear over `^`, keeps 32 bits, and loses nothing.
use com_lib.Bits.Xor.{
  zero-xor, xor-zero, xor_self, xor-div_two, xor-mod_two, xor_regroup, xor_cancel_left,
  xor_injective_right, xor-lt_pow,
}
use com_lib.Bits.Fields.{scale_suc}
use com_lib.Crc.{crc32_polynomial, bit_step, bit_loop}
use com_lib.Prelude.{
  ℕ, zero, suc, ◌*◌, ◌/◌, ◌%◌, ◌^◌, ◌≤◌, ◌<◌, bit_xor, ◌≡◌, refl, ◌∙◌, ap, ◌==◌, if◌then◌else◌,
  arith,
}

-- What a round adds to the shifted value.
abbrev feedback : ℕ → ℕ
feedback c = if c % 2 == 1 then crc32_polynomial else 0

feedback-xor : (a b : ℕ) → feedback (bit_xor a b) ≡ bit_xor (feedback a) (feedback b)
feedback-xor a b = ground (
  arith,
  xor-mod_two a b,
  xor_self crc32_polynomial,
  zero-xor crc32_polynomial,
  xor-zero crc32_polynomial,
  zero-xor 0,
)

pub bit_step-xor : (a b : ℕ) → bit_step (bit_xor a b) ≡ bit_xor (bit_step a) (bit_step b)
unfolding bit_step
bit_step-xor a b =
    ap (λ t. bit_xor t (feedback (bit_xor a b))) (xor-div_two a b)
    ∙ ap (bit_xor (bit_xor (a / 2) (b / 2))) (feedback-xor a b)
    ∙ xor_regroup (a / 2) (b / 2) (feedback a) (feedback b)

pub bit_loop-xor : (j a b : ℕ) → bit_loop j (bit_xor a b) ≡ bit_xor (bit_loop j a) (bit_loop j b)
unfolding bit_loop
bit_loop-xor zero a b = refl
bit_loop-xor (suc j) a b =
    ap (bit_loop j) (bit_step-xor a b) ∙ bit_loop-xor j (bit_step a) (bit_step b)

bit_step-even : (y : ℕ) → bit_step (2 * y) ≡ y
unfolding bit_step
bit_step-even y = ground (arith, xor-zero y)

-- `j` rounds undo a shift by `j`.
pub bit_loop-shift : (j y : ℕ) → bit_loop j (y * 2 ^ j) ≡ y
unfolding bit_loop
bit_loop-shift zero y = omega arith
bit_loop-shift (suc j) y =
    ap (bit_loop j) (ap bit_step (scale_suc y j) ∙ bit_step-even (y * 2 ^ j)) ∙ bit_loop-shift j y

pub bit_step-lt : (c : ℕ) → c < 2 ^ 32 → bit_step c < 2 ^ 32
unfolding bit_step
bit_step-lt c h =
    ground
      (arith, xor-lt_pow 32 (c / 2) crc32_polynomial (omega arith) (omega arith), xor-zero (c / 2))

pub bit_loop-lt : (j c : ℕ) → c < 2 ^ 32 → bit_loop j c < 2 ^ 32
unfolding bit_loop
bit_loop-lt zero c h = h
bit_loop-lt (suc j) c h = bit_loop-lt j (bit_step c) (bit_step-lt c h)

-- The polynomial's top bit shows in the result.
feedback_high : (h : ℕ) → h < 2 ^ 31 → 2 ^ 31 ≤ bit_xor h crc32_polynomial
feedback_high h low =
    ground
      (arith, xor-lt_pow 31 h (bit_xor h crc32_polynomial) low, xor_cancel_left h crc32_polynomial)

pub bit_step_injective : (a b : ℕ) → a < 2 ^ 32 → b < 2 ^ 32 → bit_step a ≡ bit_step b → a ≡ b
unfolding bit_step
bit_step_injective a b ha hb e = ground (
  arith,
  xor-zero (a / 2),
  xor-zero (b / 2),
  feedback_high (a / 2) (omega arith),
  feedback_high (b / 2) (omega arith),
  xor_injective_right crc32_polynomial (a / 2) (b / 2),
)

pub bit_loop_injective : (j a b : ℕ) → a < 2 ^ 32 → b < 2 ^ 32 → bit_loop j a ≡ bit_loop j b → a ≡ b
unfolding bit_loop
bit_loop_injective zero a b ha hb e = e
bit_loop_injective (suc j) a b ha hb e =
    bit_step_injective a b ha hb
      (bit_loop_injective j (bit_step a) (bit_step b) (bit_step-lt a ha) (bit_step-lt b hb) e)
