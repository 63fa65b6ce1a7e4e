-- ===== src/Bits/Fields.antt =====
-- Shifts, masks and disjoint fields as arithmetic.
use native.Mathlib.Nat.{pow-suc}
use com_lib.Bits.Step.{bit_xor_step, bit_or_step}
use com_lib.Bits.Xor.{zero-xor}
use com_lib.Prelude.{
  ℕ, zero, suc, ◌+◌, ◌*◌, ◌/◌, ◌^◌, ◌≤◌, ◌<◌, bit_or, bit_xor, ◌≡◌, refl, ap, arith,
}

pub scale_suc : (q k : ℕ) → q * 2 ^ suc k ≡ 2 * (q * 2 ^ k)
scale_suc q k = omega (arith, ap (λ (t : ℕ). q * t) (pow-suc 2 k))

-- Bits below `k` and bits from `k` on do not meet under `^`.
pub xor_fields : (k q r : ℕ) → r < 2 ^ k → bit_xor r (q * 2 ^ k) ≡ r + q * 2 ^ k
xor_fields zero q zero h = ground (arith, zero-xor (q * 1))
xor_fields zero q (suc r) h = absurd (omega arith)
xor_fields (suc k) q r h = ground (
  arith,
  bit_xor_step r (q * 2 ^ suc k),
  scale_suc q k,
  pow-suc 2 k,
  xor_fields k q (r / 2) (omega (arith, pow-suc 2 k)),
)

zero-or : (b : ℕ) → bit_or 0 b ≡ b
zero-or b = go b b (omega arith)
  where
    go : (n b : ℕ) → b ≤ n → bit_or 0 b ≡ b
    go n zero h = refl
    go zero (suc b) h = absurd (omega arith)
    go (suc n) (suc b) h = omega (arith, bit_or_step 0 (suc b), go n (suc b / 2) (omega arith))

-- Nor under `|`.
pub or_fields : (k q r : ℕ) → r < 2 ^ k → bit_or r (q * 2 ^ k) ≡ r + q * 2 ^ k
or_fields zero q zero h = ground (arith, zero-or (q * 1))
or_fields zero q (suc r) h = absurd (omega arith)
or_fields (suc k) q r h = ground (
  arith,
  bit_or_step r (q * 2 ^ suc k),
  scale_suc q k,
  pow-suc 2 k,
  or_fields k q (r / 2) (omega (arith, pow-suc 2 k)),
)
