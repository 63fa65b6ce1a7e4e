-- ===== src/Transport/Counters.antt =====
-- The counters stop at the largest value and never wrap.
use com_lib.Transport.{max_u64, saturating_add}
use com_lib.Prelude.{ℕ, ◌+◌, ◌≤◌, ◌<◌, ◌≡◌, min, arith}

-- On 64-bit values the sum is exact until it would pass the largest value, where it stays.
pub saturating_add_lem :
    (a b : ℕ) → a ≤ max_u64 → b ≤ max_u64 → saturating_add a b ≡ min (a + b) max_u64
unfolding saturating_add
saturating_add_lem a b ha hb = ground arith

pub le-saturating_add : (a b : ℕ) → a ≤ max_u64 → a ≤ saturating_add a b
unfolding saturating_add
le-saturating_add a b ha = ground arith

-- An error is counted unless the counter is at its largest value.
pub saturating_add-one : (a : ℕ) → a < max_u64 → saturating_add a 1 ≡ a + 1
unfolding saturating_add
saturating_add-one a h = ground arith

-- The order of two amounts does not matter.
pub saturating_add_swap :
    (a b c : ℕ)
    → b ≤ max_u64
    → c ≤ max_u64
    → saturating_add (saturating_add a b) c ≡ saturating_add (saturating_add a c) b
unfolding saturating_add
saturating_add_swap a b c hb hc = ground arith
