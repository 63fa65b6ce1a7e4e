-- ===== src/Arith/Unsigned.antt =====
-- The unsigned operations succeed exactly when the result is a value of the type.
use native.Mathlib.Nat.{div-le_self, div-lt_iff_lt-mul}
use com_lib.Arith.{safe_add, safe_sub, safe_mul, safe_div}
use com_lib.Prelude.{
  ℕ, zero, suc, ◌+◌, ◌-◌, ◌*◌, ◌/◌, ◌≤◌, ◌<◌, Option, none, some, ◌≡◌, ltb, leb, if◌then◌else◌,
  arith, ◌==◌,
}

-- The guard of the multiplication, without the division.
pub mul_guard : (m a b : ℕ) → 0 < b → ltb (m / b) a ≡ ltb m (a * b)
mul_guard m a b h = ground (
  arith,
  (div-lt_iff_lt-mul {k = b} {x = m} {y = a} h).0,
  (div-lt_iff_lt-mul {k = b} {x = m} {y = a} h).1,
)

module _ (max : ℕ) where
  -- What a result that is a natural number gives in a type whose largest value is `max`.
  abbrev pub representable : ℕ → Option ℕ
  representable r = if leb r max then some r else none

  mul_exact : (a b : ℕ) → safe_mul max a b ≡ representable (a * b)
  unfolding safe_mul
  mul_exact zero b = ground arith
  mul_exact (suc a) zero = ground arith
  mul_exact (suc a) (suc b) = rw (mul_guard max (suc a) (suc b) (omega arith)) (ground arith)

  -- On values of the type, `safeAdd` gives the sum where it is a value of the type and fails where
  -- it is not; so `safeMul` with the product; `safeSub` gives the difference where it is not
  -- negative and fails otherwise; and `safeDiv` gives the quotient, which is a value of the type, and
  -- fails for the divisor zero alone.
  pub safe_arith_exact :
      (a b : ℕ)
      → a ≤ max
      → b ≤ max
      → (safe_add max a b ≡ representable (a + b))
        × (safe_mul max a b ≡ representable (a * b))
        × (safe_sub max a b ≡ (if ltb a b then none else representable (a - b)))
        × (safe_div max a b ≡ (if b == 0 then none else representable (a / b)))
  unfolding safe_add safe_sub safe_div
  safe_arith_exact a b ha hb =
      (ground arith, mul_exact a b, ground arith, ground (arith, div-le_self a b))
