-- ===== src/Arith.antt =====
-- safeAdd, safeSub, safeMul and safeDiv of include/comm/core/do178c.hpp, for every integer type.
-- An unsigned type is given by its largest value, a signed type by the number of its negative values
-- (2 ^ 31 for an `int32_t`). `none` is `false`, with the result left unset; the subtractions and
-- divisions of the guards stay within the type, so they are exact.
pub mod Unsigned
pub mod Signed
pub mod Exact
mod Tests
use com_lib.Prelude.{
  ℕ, zero, suc, ◌+◌, ◌-◌, ◌*◌, ◌/◌, Bool, true, false, ◌&&◌, ◌||◌, Option, none, some, ltb, ◌==◌,
  if◌then◌else◌,
}
use com_lib.Prelude.Int.{ℤ, pos, negsuc, ◌+ℤ◌, ◌-ℤ◌, ◌*ℤ◌, ltb_ℤ}

-- The unsigned branches.
module _ (max : ℕ) where
  pub safe_add : ℕ → ℕ → Option ℕ
  safe_add a b = if ltb (max - b) a then none else some (a + b)

  pub safe_sub : ℕ → ℕ → Option ℕ
  safe_sub a b = if ltb a b then none else some (a - b)

  pub safe_mul : ℕ → ℕ → Option ℕ
  safe_mul a b =
      if (a == 0) || (b == 0) then some 0 else if ltb (max / b) a then none else some (a * b)

  pub safe_div : ℕ → ℕ → Option ℕ
  safe_div a b = if b == 0 then none else some (a / b)

-- - n
abbrev pub neg_ℕ : ℕ → ℤ
neg_ℕ zero = pos 0
neg_ℕ (suc n) = negsuc n

-- Division of C++, which rounds towards zero.
abbrev pub tdiv : ℤ → ℤ → ℤ
tdiv (pos a) (pos b) = pos (a / b)
tdiv (pos a) (negsuc b) = neg_ℕ (a / suc b)
tdiv (negsuc a) (pos b) = neg_ℕ (suc a / b)
tdiv (negsuc a) (negsuc b) = pos (suc a / suc b)

abbrev pub is_positive : ℤ → Bool
is_positive a = ltb_ℤ (pos 0) a

abbrev pub is_negative : ℤ → Bool
is_negative a = ltb_ℤ a (pos 0)

abbrev pub is_zero : ℤ → Bool
is_zero (pos zero) = true
is_zero _ = false

abbrev pub is_minus_one : ℤ → Bool
is_minus_one (negsuc zero) = true
is_minus_one _ = false

-- The signed branches. `half` is the number of negative values.
module _ (half : ℕ) where
  abbrev pub max_val : ℤ
  max_val = pos (half - 1)

  abbrev pub min_val : ℤ
  min_val = neg_ℕ half

  pub signed_add : ℤ → ℤ → Option ℤ
  signed_add a b =
      if is_positive b && ltb_ℤ (max_val -ℤ b) a
      then none
      else if is_negative b && ltb_ℤ a (min_val -ℤ b)
      then none
      else some (a +ℤ b)

  pub signed_sub : ℤ → ℤ → Option ℤ
  signed_sub a b =
      if is_negative b && ltb_ℤ (max_val +ℤ b) a
      then none
      else if is_positive b && ltb_ℤ a (min_val +ℤ b)
      then none
      else some (a -ℤ b)

  -- The tests of the signed branch: whether the product is refused.
  mul_overflows : ℤ → ℤ → Bool
  mul_overflows a b =
      if (is_positive a && is_positive b) || (is_negative a && is_negative b)
      then (if is_positive a then ltb_ℤ (tdiv max_val b) a else ltb_ℤ b (tdiv max_val a))
      else if is_negative a
      then ltb_ℤ a (tdiv min_val b)
      else ltb_ℤ b (tdiv min_val a)

  pub signed_mul : ℤ → ℤ → Option ℤ
  unfolding mul_overflows
  signed_mul a b =
      if is_zero a || is_zero b
      then some (pos 0)
      else if mul_overflows a b
      then none
      else some (a *ℤ b)

  is_min : ℤ → Bool
  is_min a = ltb_ℤ a (min_val +ℤ pos 1) && ltb_ℤ (min_val -ℤ pos 1) a

  pub signed_div : ℤ → ℤ → Option ℤ
  unfolding is_min
  signed_div a b =
      if is_zero b then none else if is_min a && is_minus_one b then none else some (tdiv a b)
