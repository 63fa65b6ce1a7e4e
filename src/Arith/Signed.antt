-- ===== src/Arith/Signed.antt =====
-- The signed operations succeed exactly when the result is a value of the type.
use native.Mathlib.Nat.{div-le_self, div-one, div-lt_self}
use com_lib.Arith.{
  signed_add, signed_sub, signed_mul, signed_div, mul_overflows, max_val, min_val, tdiv, neg_ℕ,
  is_zero,
}
use com_lib.Arith.Unsigned.{mul_guard}
use com_lib.Prelude.{
  ap₂, ◌∙◌, ℕ, zero, suc, ◌+◌, ◌-◌, ◌*◌, ◌<◌, Bool, true, ◌&&◌, not, Option, none, some, ◌≡◌, refl,
  ltb, if◌then◌else◌, arith,
}
use com_lib.Prelude.Int.{ℤ, pos, negsuc, ◌+ℤ◌, ◌-ℤ◌, ◌*ℤ◌, ltb_ℤ, sub_ℕ}

sub_ℕ-zero : (n : ℕ) → sub_ℕ 0 n ≡ neg_ℕ n
sub_ℕ-zero zero = refl
sub_ℕ-zero (suc n) = ground arith

module _ (half : ℕ) (positive : 0 < half) where
  abbrev pub in_range : ℤ → Bool
  in_range r = not (ltb_ℤ r (min_val half)) && not (ltb_ℤ (max_val half) r)

  abbrev pub IsValue : ℤ → Type 0
  IsValue a = in_range a ≡ true

  -- What a result that is an integer gives in the type.
  abbrev pub signed_representable : ℤ → Option ℤ
  signed_representable r = if in_range r then some r else none

  add_exact :
      (a b : ℤ) → IsValue a → IsValue b → signed_add half a b ≡ signed_representable (a +ℤ b)
  unfolding signed_add ◌+ℤ◌ ◌-ℤ◌
  add_exact a b ha hb = ground arith

  sub_exact :
      (a b : ℤ) → IsValue a → IsValue b → signed_sub half a b ≡ signed_representable (a -ℤ b)
  unfolding signed_sub ◌+ℤ◌ ◌-ℤ◌
  sub_exact a b ha hb = ground arith

  negative_result :
      (n : ℕ)
      → 0 < n
      → (if ltb half n then none else some (neg_ℕ n)) ≡ signed_representable (neg_ℕ n)
  negative_result zero h = absurd (omega arith)
  negative_result (suc n) h = ground arith

  positive_negative : (a b : ℕ) → pos (suc a) *ℤ negsuc b ≡ neg_ℕ (suc b * suc a)
  unfolding ◌*ℤ◌
  positive_negative a b =
      let none_left : suc a * 0 + 0 * suc b ≡ 0 = omega arith in
      let product : suc a * suc b + 0 * 0 ≡ suc b * suc a = omega arith in
      ap₂ sub_ℕ none_left product ∙ sub_ℕ-zero (suc b * suc a)

  negative_positive : (a b : ℕ) → negsuc a *ℤ pos (suc b) ≡ neg_ℕ (suc a * suc b)
  unfolding ◌*ℤ◌
  negative_positive a b =
      let none_left : 0 * suc b + suc a * 0 ≡ 0 = omega arith in
      let product : 0 * 0 + suc a * suc b ≡ suc a * suc b = omega arith in
      ap₂ sub_ℕ none_left product ∙ sub_ℕ-zero (suc a * suc b)

  negative_positive_overflows :
      (a b : ℕ) → mul_overflows half (negsuc a) (pos (suc b)) ≡ ltb half (suc a * suc b)
  unfolding mul_overflows
  negative_positive_overflows a b = ground (arith, mul_guard half (suc a) (suc b) (omega arith))

  positive_negative_overflows :
      (a b : ℕ) → mul_overflows half (pos (suc a)) (negsuc b) ≡ ltb half (suc b * suc a)
  unfolding mul_overflows
  positive_negative_overflows a b = ground (arith, mul_guard half (suc b) (suc a) (omega arith))

  -- Each sign of the factors comes down to a product of magnitudes.
  mul_exact :
      (a b : ℤ) → IsValue a → IsValue b → signed_mul half a b ≡ signed_representable (a *ℤ b)
  unfolding signed_mul ◌*ℤ◌
  mul_exact (pos zero) b ha hb = ground arith
  mul_exact (pos (suc a)) (pos zero) ha hb = ground arith
  mul_exact (negsuc a) (pos zero) ha hb = ground arith
  mul_exact (pos (suc a)) (pos (suc b)) ha hb =
      ground (arith, mul_guard (half - 1) (suc a) (suc b) (omega arith))
  mul_exact (pos (suc a)) (negsuc b) ha hb =
      rw (positive_negative_overflows a b, positive_negative a b)
        (negative_result (suc b * suc a) (omega arith))
  mul_exact (negsuc a) (pos (suc b)) ha hb =
      rw (negative_positive_overflows a b, negative_positive a b)
        (negative_result (suc a * suc b) (omega arith))
  mul_exact (negsuc a) (negsuc b) ha hb =
      ground (arith, mul_guard (half - 1) (suc b) (suc a) (omega arith))

  div_exact :
      (a b : ℤ)
      → IsValue a
      → IsValue b
      → signed_div half a b ≡ (if is_zero b then none else signed_representable (tdiv a b))
  unfolding signed_div ◌+ℤ◌ ◌-ℤ◌
  div_exact a (pos zero) ha hb = refl
  div_exact (pos a) (pos (suc b)) ha hb = ground (arith, div-le_self a (suc b))
  div_exact (pos a) (negsuc b) ha hb = ground (arith, div-le_self a (suc b))
  div_exact (negsuc a) (pos (suc b)) ha hb = ground (arith, div-le_self (suc a) (suc b))
  div_exact (negsuc a) (negsuc zero) ha hb = ground (arith, div-one (suc a))
  div_exact (negsuc a) (negsuc (suc b)) ha hb =
      ground (arith, div-lt_self {n = suc a} {k = suc (suc b)} (omega arith) (omega arith))

  -- On values of a signed type, addition, subtraction and multiplication give the exact result where
  -- it is a value of the type and fail where it is not; division gives the quotient rounded towards
  -- zero where that is a value of the type, and fails where it is not or the divisor is zero.
  pub signed_arith_exact :
      (a b : ℤ)
      → IsValue a
      → IsValue b
      → (signed_add half a b ≡ signed_representable (a +ℤ b))
        × (signed_sub half a b ≡ signed_representable (a -ℤ b))
        × (signed_mul half a b ≡ signed_representable (a *ℤ b))
        × (signed_div half a b ≡ (if is_zero b then none else signed_representable (tdiv a b)))
  signed_arith_exact a b ha hb =
      (add_exact a b ha hb, sub_exact a b ha hb, mul_exact a b ha hb, div_exact a b ha hb)
