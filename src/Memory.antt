-- ===== src/Memory.antt =====
-- COMM_BOUNDED_FOR, COMM_BOUNDED_WHILE, safeCopy and safeSet of include/comm/core/do178c.hpp.
-- A memory block is an optional list of bytes, `none` for the null pointer; the source and the
-- destination of a copy do not overlap. A read past the end of a block, undefined in the source, gives
-- zero here, and a write past the end changes nothing.
pub mod Loops
pub mod Copy
mod Tests
use com_lib.Prelude.{
  ℕ, zero, suc, ◌+◌, ◌-◌, Bool, true, false, List, [], ◌∷◌, Option, none, some, ltb, if◌then◌else◌,
  get_or, set,
}

-- `for (var = start; var < end && rounds < max; ++var, ++rounds) state = body(var, state)`, with the
-- rounds that are left.
unfoldable pub bounded_for {ℓ} : {S : Type ℓ} → ℕ → ℕ → ℕ → (ℕ → S → S) → S → S
bounded_for zero var end body s = s
bounded_for (suc rounds) var end body s =
    let rest = bounded_for rounds (suc var) end body (body var s) in if ltb var end then rest else s

-- `while (condition && rounds < max) state = body(state)`
unfoldable pub bounded_while {ℓ} : {S : Type ℓ} → ℕ → (S → Bool) → (S → S) → S → S
bounded_while zero condition body s = s
bounded_while (suc rounds) condition body s =
    let rest = bounded_while rounds condition body (body s) in if condition s then rest else s

abbrev pub clip : ℕ → ℕ → ℕ
clip count dest_size = if ltb dest_size count then dest_size else count

-- The count, and the destination afterwards.
pub safe_copy : Option (List ℕ) → ℕ → Option (List ℕ) → ℕ → ℕ × Option (List ℕ)
safe_copy none dest_size src count = (0, none)
safe_copy (some d) dest_size none count = (0, some d)
safe_copy (some d) dest_size (some s) count =
    let to_copy = clip count dest_size in
    (to_copy, some (bounded_for dest_size 0 to_copy (λ i block. set block i (get_or s i 0)) d))

pub safe_set : Option (List ℕ) → ℕ → ℕ → ℕ → ℕ × Option (List ℕ)
safe_set none dest_size value count = (0, none)
safe_set (some d) dest_size value count =
    let to_set = clip count dest_size in
    (to_set, some (bounded_for dest_size 0 to_set (λ i block. set block i value) d))
