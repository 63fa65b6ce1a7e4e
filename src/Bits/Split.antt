-- ===== src/Bits/Split.antt =====
-- `|` and `&` on words in two parts, the low `k` bits and the bits above them.
use native.Mathlib.Nat.{pow-suc}
use com_lib.Bits.Step.{bit_or_step, bit_and_step}
use com_lib.Bits.Fields.{scale_suc}
use com_lib.Prelude.{
  ℕ, zero, suc, ◌+◌, ◌-◌, ◌*◌, ◌/◌, ◌^◌, ◌≤◌, ◌<◌, bit_or, bit_and, ◌≡◌, refl, ap, arith,
}

pub or_parts :
    (k h h' l l' : ℕ)
    → l < 2 ^ k
    → l' < 2 ^ k
    → bit_or (l + h * 2 ^ k) (l' + h' * 2 ^ k) ≡ bit_or l l' + bit_or h h' * 2 ^ k
or_parts zero h h' zero zero p q = ground arith
or_parts zero h h' zero (suc l') p q = absurd (omega arith)
or_parts zero h h' (suc l) l' p q = absurd (omega arith)
or_parts (suc k) h h' l l' p q = ground (
  arith,
  bit_or_step (l + h * 2 ^ suc k) (l' + h' * 2 ^ suc k),
  bit_or_step l l',
  scale_suc h k,
  scale_suc h' k,
  scale_suc (bit_or h h') k,
  pow-suc 2 k,
  or_parts k h h' (l / 2) (l' / 2) (omega (arith, pow-suc 2 k)) (omega (arith, pow-suc 2 k)),
)

pub and_parts :
    (k h h' l l' : ℕ)
    → l < 2 ^ k
    → l' < 2 ^ k
    → bit_and (l + h * 2 ^ k) (l' + h' * 2 ^ k) ≡ bit_and l l' + bit_and h h' * 2 ^ k
and_parts zero h h' zero zero p q = ground arith
and_parts zero h h' zero (suc l') p q = absurd (omega arith)
and_parts zero h h' (suc l) l' p q = absurd (omega arith)
and_parts (suc k) h h' l l' p q = ground (
  arith,
  bit_and_step (l + h * 2 ^ suc k) (l' + h' * 2 ^ suc k),
  bit_and_step l l',
  scale_suc h k,
  scale_suc h' k,
  scale_suc (bit_and h h') k,
  pow-suc 2 k,
  and_parts k h h' (l / 2) (l' / 2) (omega (arith, pow-suc 2 k)) (omega (arith, pow-suc 2 k)),
)

and-zero : (n x : ℕ) → x ≤ n → bit_and x 0 ≡ 0
and-zero n zero h = omega (arith, bit_and_step 0 0)
and-zero zero (suc x) h = absurd (omega arith)
and-zero (suc n) (suc x) h =
    omega (arith, bit_and_step (suc x) 0, and-zero n (suc x / 2) (omega arith))

or-zero : (n x : ℕ) → x ≤ n → bit_or x 0 ≡ x
or-zero n zero h = omega (arith, bit_or_step 0 0)
or-zero zero (suc x) h = absurd (omega arith)
or-zero (suc n) (suc x) h =
    omega (arith, bit_or_step (suc x) 0, or-zero n (suc x / 2) (omega arith))

-- A mask of `k` ones keeps a number below `2 ^ k`.
and_ones : (k l : ℕ) → l < 2 ^ k → bit_and l (2 ^ k - 1) ≡ l
and_ones zero zero h = refl
and_ones zero (suc l) h = absurd (omega arith)
and_ones (suc k) l h = ground (
  arith,
  bit_and_step l (2 ^ suc k - 1),
  pow-suc 2 k,
  and_ones k (l / 2) (omega (arith, pow-suc 2 k)),
)

-- The low part under a mask of ones, the high part under a mask above them, and flags that are added
-- above the low part.
pub low_part : (k h l : ℕ) → l < 2 ^ k → bit_and (l + h * 2 ^ k) (2 ^ k - 1) ≡ l
low_part k h l p = ground (
  arith,
  and_parts k h 0 l (2 ^ k - 1) p (omega arith),
  and-zero h h (omega arith),
  and_ones k l p,
  ap (λ t. t * 2 ^ k) (and-zero h h (omega arith)),
)

pub high_part :
    (k h c l : ℕ) → l < 2 ^ k → bit_and (l + h * 2 ^ k) (c * 2 ^ k) ≡ bit_and h c * 2 ^ k
high_part k h c l p =
    ground (arith, and_parts k h c l 0 p (omega arith), and-zero l l (omega arith))

pub add_flags :
    (k h c l : ℕ) → l < 2 ^ k → bit_or (l + h * 2 ^ k) (c * 2 ^ k) ≡ l + bit_or h c * 2 ^ k
add_flags k h c l p = ground (arith, or_parts k h c l 0 p (omega arith), or-zero l l (omega arith))
