-- ===== src/Sequence.antt =====
-- SequenceGenerator and SequenceValidator of include/comm/core/safety.hpp.
-- The mutex and the atomic make each call one step, so a call is a function on the state. A
-- `uint32_t` or `uint64_t` sum keeps its wrap-around.
pub mod Stream
pub mod Loss
mod Tests
use com_lib.Prelude.{
  ℕ, ◌+◌, ◌-◌, ◌%◌, ◌^◌, ◌<◌, Bool, true, false, ◌&&◌, not, List, [], ◌∷◌, ltb, ◌==◌, if◌then◌else◌,
  u32, u64, ◌≡◌, arith,
}

-- `SequenceGenerator`
pub record Generator : Type 0 where
  pub counter : ℕ

abbrev pub new_generator : Generator
new_generator = record { counter = 0 }

-- `fetch_add(1)` returns the old value.
pub next : Generator → ℕ × Generator
next g = (g.counter, record { counter = u32 (g.counter + 1) })

pub current : Generator → ℕ
current g = g.counter

pub reset_generator : Generator → Generator
reset_generator g = record g { counter = 0 }

-- `SequenceValidator::Result`
pub data Result : Type 0 where
  valid duplicate gap out_of_order wrap_around : Result

-- `SequenceValidator`
pub record Validator : Type 0 where
  pub initialized : Bool
  pub expected_sequence : ℕ
  pub duplicate_count : ℕ
  pub gap_count : ℕ
  pub wrap_around_count : ℕ

abbrev pub new_validator : Validator
new_validator = record {
  initialized = false;
  expected_sequence = 0;
  duplicate_count = 0;
  gap_count = 0;
  wrap_around_count = 0;
}

abbrev pub max_sequence_number : ℕ
max_sequence_number = 0xFFFFFFFF

abbrev pub wrap_threshold : ℕ
wrap_threshold = max_sequence_number - 1000

unfoldable pub validate : Validator → ℕ → Result × Validator
validate v sequence =
    if not v.initialized
    then (valid, record v { expected_sequence = u32 (sequence + 1); initialized = true })
    else if ltb wrap_threshold v.expected_sequence && ltb sequence 1000
    then (
      wrap_around,
      record v {
        expected_sequence = u32 (sequence + 1);
        wrap_around_count = u64 (v.wrap_around_count + 1);
      },
    )
    else if sequence == v.expected_sequence
    then (valid, record v { expected_sequence = u32 (v.expected_sequence + 1) })
    else if ltb sequence v.expected_sequence
    then (duplicate, record v { duplicate_count = u64 (v.duplicate_count + 1) })
    else (
      gap,
      record v {
        gap_count = u64 (v.gap_count + (sequence - v.expected_sequence));
        expected_sequence = u32 (sequence + 1);
      },
    )

-- `SequenceValidator::Stats`
pub record Stats : Type 0 where
  pub duplicate_count : ℕ
  pub gap_count : ℕ
  pub wrap_around_count : ℕ
  pub expected_sequence : ℕ

pub get_stats : Validator → Stats
get_stats v = record {
  duplicate_count = v.duplicate_count;
  gap_count = v.gap_count;
  wrap_around_count = v.wrap_around_count;
  expected_sequence = v.expected_sequence;
}

pub reset_validator : Validator → Validator
reset_validator v = new_validator

-- The validator fed with a list of received numbers.
unfoldable pub validate_all : Validator → List ℕ → List Result × Validator
unfolding validate
validate_all v [] = ([], v)
validate_all v (s ∷ ss) =
    let (r, v') = validate v s in let (rs, v'') = validate_all v' ss in (r ∷ rs, v'')

-- Every counter stays within its type.
pub record IsWord (v : Validator) : Type 0 where
  pub expected_fits : v.expected_sequence < 2 ^ 32
  pub duplicates_fit : v.duplicate_count < 2 ^ 64
  pub gaps_fit : v.gap_count < 2 ^ 64
  pub wraps_fit : v.wrap_around_count < 2 ^ 64

pub validate-IsWord : (v : Validator) (s : ℕ) → IsWord v → IsWord (validate v s).1
unfolding validate
validate-IsWord v s h = ground arith
