-- ===== src/Prelude/Words.antt =====
-- Unsigned machine words: what a cast or a wrapping operation keeps.
use Prim.Native.Nat.{ℕ, ◌%◌, ◌^◌}

abbrev pub u32 : ℕ → ℕ
u32 n = n % 2 ^ 32

abbrev pub u64 : ℕ → ℕ
u64 n = n % 2 ^ 64
