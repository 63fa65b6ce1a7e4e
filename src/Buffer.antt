-- ===== src/Buffer.antt =====
-- FixedBuffer and BoundedCounter of include/comm/core/do178c.hpp.
-- The array behind a buffer is a list of `capacity` items, which the operations keep at that length.
-- `at` gives the item that the source's pointer leads to.
pub mod Queue
pub mod Refinement
mod Tests
use com_lib.Prelude.{
  ℕ, zero, suc, ◌+◌, ◌-◌, ◌≤◌, Bool, true, false, List, [], ◌∷◌, ◌++◌, Option, none, some, ltb, leb,
  ◌==◌, if◌then◌else◌, length, get_elem?, set, take, replicate, ◌≡◌,
}

pub record FixedBuffer {ℓ} (T : Type ℓ) : Type ℓ where
  pub size : ℕ
  pub items : List T

-- The copying loop at index `i`, with the items of the source that are left to copy.
copy_from {ℓ} : {T : Type ℓ} → List T → ℕ → List T → List T
copy_from [] i items = items
copy_from (s ∷ ss) i items = copy_from ss (i + 1) (set items i s)

module _ {ℓ} {T : Type ℓ} (capacity : ℕ) where
  -- The array is value-initialised, with `blank`.
  unfoldable pub new_buffer : T → FixedBuffer T
  new_buffer blank = record { size = 0; items = replicate capacity blank }

  pub full : FixedBuffer T → Bool
  full b = leb capacity b.size

  pub empty : FixedBuffer T → Bool
  empty b = b.size == 0

  pub remaining : FixedBuffer T → ℕ
  remaining b = capacity - b.size

  unfoldable pub push_back : FixedBuffer T → T → Bool × FixedBuffer T
  unfolding full
  push_back b value =
      if full b
      then (false, b)
      else (true, record b { size = b.size + 1; items = set b.items b.size value })

  unfoldable pub pop_back : FixedBuffer T → Bool × FixedBuffer T
  unfolding empty
  pop_back b = if empty b then (false, b) else (true, record b { size = b.size - 1 })

  unfoldable pub at : FixedBuffer T → ℕ → Option T
  at b index = if leb b.size index then none else get_elem? b.items index

  unfoldable pub clear : FixedBuffer T → FixedBuffer T
  clear b = record b { size = 0 }

  pub resize : FixedBuffer T → ℕ → Bool × FixedBuffer T
  resize b new_size =
      if ltb capacity new_size then (false, b) else (true, record b { size = new_size })

  -- `src` is an array of at least `count` items, or the null pointer.
  pub assign : FixedBuffer T → Option (List T) → ℕ → ℕ × FixedBuffer T
  unfolding copy_from
  assign b none count = (0, b)
  assign b (some src) count =
      let to_copy = if ltb capacity count then capacity else count in
      (to_copy, record { size = to_copy; items = copy_from (take to_copy src) 0 b.items })

-- `BoundedCounter`
pub record BoundedCounter : Type 0 where
  pub max_count : ℕ
  pub count : ℕ

pub new_counter : ℕ → BoundedCounter
new_counter max_count = record { max_count = max_count; count = 0 }

pub increment : BoundedCounter → Bool × BoundedCounter
increment c =
    if leb c.max_count c.count then (false, c) else (true, record c { count = c.count + 1 })

pub has_remaining : BoundedCounter → Bool
has_remaining c = ltb c.count c.max_count

pub reset_counter : BoundedCounter → BoundedCounter
reset_counter c = record c { count = 0 }
