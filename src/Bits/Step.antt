-- ===== src/Bits/Step.antt =====
-- The lowest binary digit of `^`, `|` and `&`, and what is left above it.
use Prim.Native.Nat.{max, digits, differ, bitwise, bit_and-bitwise, bit_or-bitwise, bit_xor-bitwise}
use com_lib.Prelude.{
  ℕ, zero, suc, ◌+◌, ◌*◌, ◌/◌, ◌%◌, ◌≤◌, ◌<◌, min, bit_and, bit_or, bit_xor, ◌≡◌, refl, sym, ap,
  ◌∙◌, arith,
}

-- The library's recursion on digits has fuel; any fuel that is enough gives the same.
module _ (ends : ℕ → ℕ) (digit : ℕ → ℕ → ℕ) where
  enough_fuel :
      (bound fuel x y : ℕ)
      → fuel ≤ bound
      → x ≤ fuel
      → digits ends digit fuel x y ≡ bitwise ends digit x y
  enough_fuel bound zero zero y small fits = refl
  enough_fuel bound (suc fuel) zero y small fits = refl
  enough_fuel bound zero (suc x) y small fits = absurd (omega arith)
  enough_fuel zero (suc fuel) (suc x) y small fits = absurd (omega arith)
  enough_fuel (suc bound) (suc fuel) (suc x) y small fits =
      ap (λ high. high * 2 + digit (suc x % 2) (y % 2))
        (enough_fuel bound fuel (suc x / 2) (y / 2) (omega arith) (omega arith)
          ∙ sym (enough_fuel bound x (suc x / 2) (y / 2) (omega arith) (omega arith)))

  lowest_digit :
      (x y : ℕ)
      → bitwise ends digit (suc x) y
        ≡ bitwise ends digit (suc x / 2) (y / 2) * 2 + digit (suc x % 2) (y % 2)
  lowest_digit x y =
      ap (λ high. high * 2 + digit (suc x % 2) (y % 2))
        (enough_fuel x x (suc x / 2) (y / 2) (omega arith) (omega arith))

differ_mod : (x y : ℕ) → x < 2 → y < 2 → differ x y ≡ (x + y) % 2
differ_mod zero y p q = omega arith
differ_mod (suc zero) zero p q = refl
differ_mod (suc zero) (suc zero) p q = refl
differ_mod (suc zero) (suc (suc y)) p q = absurd (omega arith)
differ_mod (suc (suc x)) y p q = absurd (omega arith)

pub bit_xor_step : (a b : ℕ) → bit_xor a b ≡ bit_xor (a / 2) (b / 2) * 2 + (a + b) % 2
bit_xor_step zero b = simp bit_xor-bitwise (omega arith)
bit_xor_step (suc a) b = omega (
  arith,
  bit_xor-bitwise (suc a) b,
  bit_xor-bitwise (suc a / 2) (b / 2),
  lowest_digit (λ y. y) differ a b,
  differ_mod (suc a % 2) (b % 2) (omega arith) (omega arith),
)

pub bit_or_step : (x y : ℕ) → bit_or x y ≡ max (x % 2) (y % 2) + 2 * bit_or (x / 2) (y / 2)
bit_or_step zero y = simp bit_or-bitwise (omega arith)
bit_or_step (suc x) y = simp bit_or-bitwise (omega (arith, lowest_digit (λ high. high) max x y))

pub bit_and_step : (x y : ℕ) → bit_and x y ≡ min (x % 2) (y % 2) + 2 * bit_and (x / 2) (y / 2)
bit_and_step zero y = simp bit_and-bitwise (omega arith)
bit_and_step (suc x) y = simp bit_and-bitwise (omega (arith, lowest_digit (λ high. 0) min x y))
