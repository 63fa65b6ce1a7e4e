-- ===== src/Bits/Xor.antt =====
-- `^` is an abelian group operation in which every number is its own inverse.
use native.Mathlib.Nat.{pow-suc, pow-succ', div-one, div-div-eq-div-mul}
use com_lib.Bits.Step.{bit_xor_step}
use com_lib.Prelude.{
  ℕ, zero, suc, ◌+◌, ◌/◌, ◌%◌, ◌^◌, ◌≤◌, ◌<◌, bit_xor, ◌≡◌, refl, sym, ◌∙◌, ap, arith,
}

pub xor-div_two : (a b : ℕ) → bit_xor a b / 2 ≡ bit_xor (a / 2) (b / 2)
xor-div_two a b = omega (arith, bit_xor_step a b)

pub xor-mod_two : (a b : ℕ) → bit_xor a b % 2 ≡ (a + b) % 2
xor-mod_two a b = omega (arith, bit_xor_step a b)

-- Two numbers with the same lowest digit and the same half are equal.
digits_ext : (a b : ℕ) → a / 2 ≡ b / 2 → a % 2 ≡ b % 2 → a ≡ b
digits_ext a b h l = omega arith

pub zero-xor : (b : ℕ) → bit_xor 0 b ≡ b
zero-xor b = go b b (omega arith)
  where
    go : (n b : ℕ) → b ≤ n → bit_xor 0 b ≡ b
    go n zero h = refl
    go zero (suc b) h = absurd (omega arith)
    go (suc n) (suc b) h = omega (arith, bit_xor_step 0 (suc b), go n (suc b / 2) (omega arith))

comm_fuel : (n a b : ℕ) → a ≤ n → b ≤ n → bit_xor a b ≡ bit_xor b a
comm_fuel zero zero zero p q = refl
comm_fuel zero zero (suc b) p q = absurd (omega arith)
comm_fuel zero (suc a) b p q = absurd (omega arith)
comm_fuel (suc n) a b p q = omega (
  arith,
  bit_xor_step a b,
  bit_xor_step b a,
  comm_fuel n (a / 2) (b / 2) (omega arith) (omega arith),
)

pub xor_comm : (a b : ℕ) → bit_xor a b ≡ bit_xor b a
xor_comm a b = comm_fuel (a + b) a b (omega arith) (omega arith)

pub xor-zero : (a : ℕ) → bit_xor a 0 ≡ a
xor-zero a = xor_comm a 0 ∙ zero-xor a

self_fuel : (n a : ℕ) → a ≤ n → bit_xor a a ≡ 0
self_fuel zero zero h = refl
self_fuel zero (suc a) h = absurd (omega arith)
self_fuel (suc n) a h = omega (arith, bit_xor_step a a, self_fuel n (a / 2) (omega arith))

pub xor_self : (a : ℕ) → bit_xor a a ≡ 0
xor_self a = self_fuel a a (omega arith)

assoc_step :
    (a b c : ℕ)
    → bit_xor (bit_xor (a / 2) (b / 2)) (c / 2) ≡ bit_xor (a / 2) (bit_xor (b / 2) (c / 2))
    → bit_xor (bit_xor a b) c ≡ bit_xor a (bit_xor b c)
assoc_step a b c ih =
    digits_ext _ _
      (rw
        (xor-div_two (bit_xor a b) c, xor-div_two a b, xor-div_two a (bit_xor b c), xor-div_two b c)
        ih)
      (omega (
        arith,
        xor-mod_two (bit_xor a b) c,
        xor-mod_two a b,
        xor-mod_two a (bit_xor b c),
        xor-mod_two b c,
      ))

assoc_fuel : (n a b c : ℕ) → a ≤ n → bit_xor (bit_xor a b) c ≡ bit_xor a (bit_xor b c)
assoc_fuel n zero b c h = ap (λ t. bit_xor t c) (zero-xor b) ∙ sym (zero-xor (bit_xor b c))
assoc_fuel zero (suc a) b c h = absurd (omega arith)
assoc_fuel (suc n) (suc a) b c h =
    assoc_step (suc a) b c (assoc_fuel n (suc a / 2) (b / 2) (c / 2) (omega arith))

pub xor_assoc : (a b c : ℕ) → bit_xor (bit_xor a b) c ≡ bit_xor a (bit_xor b c)
xor_assoc a b c = assoc_fuel a a b c (omega arith)

-- A sum of four regrouped, as it stands in the linearity of the checksum.
pub xor_regroup :
    (a b c d : ℕ) → bit_xor (bit_xor a b) (bit_xor c d) ≡ bit_xor (bit_xor a c) (bit_xor b d)
xor_regroup a b c d =
    xor_assoc a b (bit_xor c d)
    ∙ ap (bit_xor a)
        (sym (xor_assoc b c d) ∙ ap (λ t. bit_xor t d) (xor_comm b c) ∙ xor_assoc c b d)
    ∙ sym (xor_assoc a c (bit_xor b d))

pub xor_cancel_left : (a b : ℕ) → bit_xor a (bit_xor a b) ≡ b
xor_cancel_left a b = sym (xor_assoc a a b) ∙ ap (λ t. bit_xor t b) (xor_self a) ∙ zero-xor b

pub xor_cancel_right : (a b : ℕ) → bit_xor (bit_xor a b) b ≡ a
xor_cancel_right a b = xor_assoc a b b ∙ ap (bit_xor a) (xor_self b) ∙ xor-zero a

pub xor_injective_left : (a b c : ℕ) → bit_xor a b ≡ bit_xor a c → b ≡ c
xor_injective_left a b c e = sym (xor_cancel_left a b) ∙ ap (bit_xor a) e ∙ xor_cancel_left a c

pub xor_injective_right : (a b c : ℕ) → bit_xor b a ≡ bit_xor c a → b ≡ c
xor_injective_right a b c e =
    sym (xor_cancel_right b a) ∙ ap (λ t. bit_xor t a) e ∙ xor_cancel_right c a

pub xor-lt_pow : (k a b : ℕ) → a < 2 ^ k → b < 2 ^ k → bit_xor a b < 2 ^ k
xor-lt_pow zero zero zero p q = omega arith
xor-lt_pow zero zero (suc b) p q = absurd (omega arith)
xor-lt_pow zero (suc a) b p q = absurd (omega arith)
xor-lt_pow (suc k) a b p q = omega (
  arith,
  pow-suc 2 k,
  bit_xor_step a b,
  xor-lt_pow k (a / 2) (b / 2) (omega (arith, pow-suc 2 k)) (omega (arith, pow-suc 2 k)),
)

pub xor-div_pow : (k a b : ℕ) → bit_xor a b / 2 ^ k ≡ bit_xor (a / 2 ^ k) (b / 2 ^ k)
xor-div_pow zero a b = simp div-one
xor-div_pow (suc k) a b =
    simp (pow-succ', ← div-div-eq-div-mul, xor-div_two) (xor-div_pow k (a / 2) (b / 2))
