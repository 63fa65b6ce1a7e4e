-- ===== src/Arith/Exact.antt =====
-- Checked arithmetic gives the exact result or none, on unsigned and on signed types.
use com_lib.Arith.{
  safe_add, safe_sub, safe_mul, safe_div, signed_add, signed_sub, signed_mul, signed_div, tdiv,
  is_zero,
}
use com_lib.Arith.Unsigned.{representable, safe_arith_exact}
use com_lib.Arith.Signed.{IsValue, signed_representable, signed_arith_exact}
use com_lib.Prelude.{ℕ, ◌+◌, ◌-◌, ◌*◌, ◌/◌, ◌≤◌, ◌<◌, none, ltb, ◌==◌, if◌then◌else◌, ◌≡◌}
use com_lib.Prelude.Int.{ℤ, ◌+ℤ◌, ◌-ℤ◌, ◌*ℤ◌}

-- Sum, product, difference and quotient in an unsigned type with the largest value `max`.
abbrev pub UnsignedExact : ℕ → ℕ → ℕ → Type 0
UnsignedExact max a b =
    (safe_add max a b ≡ representable max (a + b))
    × (safe_mul max a b ≡ representable max (a * b))
    × (safe_sub max a b ≡ (if ltb a b then none else representable max (a - b)))
    × (safe_div max a b ≡ (if b == 0 then none else representable max (a / b)))

-- The same in a signed type from `- half` to `half - 1`.
abbrev pub SignedExact : (half : ℕ) → 0 < half → ℤ → ℤ → Type 0
SignedExact half positive x y =
    (signed_add half x y ≡ signed_representable half positive (x +ℤ y))
    × (signed_sub half x y ≡ signed_representable half positive (x -ℤ y))
    × (signed_mul half x y ≡ signed_representable half positive (x *ℤ y))
    × (signed_div half x y
        ≡ (if is_zero y then none else signed_representable half positive (tdiv x y)))

-- On values of an unsigned type and of a signed one, of any width: each operation gives the exact result where it
-- is a value of the type and fails where it is not. Division rounds towards zero and also fails for the
-- divisor zero; an unsigned difference below zero fails.
pub arith_exact :
    (max half : ℕ) (positive : 0 < half) (a b : ℕ) (x y : ℤ)
    → a ≤ max
    → b ≤ max
    → IsValue half positive x
    → IsValue half positive y
    → UnsignedExact max a b × SignedExact half positive x y
arith_exact max half positive a b x y ha hb hx hy =
    (safe_arith_exact max a b ha hb, signed_arith_exact half positive x y hx hy)
