-- ===== src/Memory/Loops.antt =====
-- The bound of a bounded loop against its range.
use native.Mathlib.Nat.{zero-add}
use com_lib.Memory.{bounded_for}
use com_lib.Prelude.{
  ℕ, zero, suc, ◌+◌, ◌≤◌, ◌<◌, true, false, ◌≡◌, refl, ltb, arith, ◌∙◌, ap, subst,
}

module _ {ℓ} {S : Type ℓ} where
  -- The loop without a bound: `n` rounds from `i` on.
  unfoldable pub for_range : ℕ → ℕ → (ℕ → S → S) → S → S
  for_range zero i body s = s
  for_range (suc n) i body s = for_range n (suc i) body (body i s)

  -- A bounded loop makes the rounds of its range, or as many as the bound allows if these are fewer.
  pub bounded_for-range :
      (rounds start n : ℕ) (body : ℕ → S → S) (s : S)
      → n ≤ rounds
      → bounded_for rounds start (start + n) body s ≡ for_range n start body s
  unfolding bounded_for for_range
  bounded_for-range zero start zero body s h = refl
  bounded_for-range zero start (suc n) body s h = absurd (omega arith)
  bounded_for-range (suc rounds) start zero body s h =
      let over : ltb start (start + 0) ≡ false = ground arith in rw over
  bounded_for-range (suc rounds) start (suc n) body s h =
      let more : ltb start (start + suc n) ≡ true = ground arith in
      let end : start + suc n ≡ suc start + n = omega arith in
      rw more (
        ap (λ t. bounded_for rounds (suc start) t body (body start s)) end
        ∙ bounded_for-range rounds (suc start) n body (body start s) (omega arith))

-- What every round keeps holds after the rounds.
pub for_range_inv {ℓ κ} :
    {S : Type ℓ} (P : ℕ → S → Type κ) (body : ℕ → S → S) (end : ℕ)
    → ((i : ℕ) (s : S) → i < end → P i s → P (suc i) (body i s))
    → (n i : ℕ) (s : S) → n + i ≡ end
    → P i s
    → P end (for_range n i body s)
unfolding for_range
for_range_inv P body end keep zero i s e h =
    let e' : i ≡ end = omega arith in subst (λ j. P j s) e' h
for_range_inv P body end keep (suc n) i s e h =
    for_range_inv P body end keep n (suc i) (body i s) (omega arith) (keep i s (omega arith) h)

-- So it holds after a bounded loop from zero whose bound is no smaller than its range.
pub bounded_for_inv {ℓ κ} :
    {S : Type ℓ} (P : ℕ → S → Type κ) (body : ℕ → S → S) (rounds n : ℕ) (s : S)
    → n ≤ rounds
    → ((i : ℕ) (s : S) → i < n → P i s → P (suc i) (body i s))
    → P 0 s
    → P n (bounded_for rounds 0 n body s)
bounded_for_inv P body rounds n s enough keep start =
    subst (λ t. P n (bounded_for rounds 0 t body s)) (zero-add n)
      (rw (bounded_for-range rounds 0 n body s enough)
        (for_range_inv P body n keep n 0 s (omega arith) start))
