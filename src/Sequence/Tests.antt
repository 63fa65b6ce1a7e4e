-- ===== src/Sequence/Tests.antt =====
-- The theorems on sequence numbers at concrete states.
use com_lib.Sequence.{Generator, Validator, duplicate, wrap_around, next, validate, validate_all}
use com_lib.Sequence.Stream.{InSync}
use com_lib.Sequence.Loss.{lose, lose-uncounted, IsCounted, validate_all-IsCounted}
use com_lib.Prelude.{◌≡◌, ◌⊎◌, refl, true, [], ◌∷◌, arith}

-- Both ends stand eight numbers before 2 ^ 32.
abbrev near_wrap : Generator
near_wrap = record { counter = 0xFFFFFFF8 }

abbrev receiver : Validator
receiver = record {
  initialized = true;
  expected_sequence = 0xFFFFFFF8;
  duplicate_count = 1;
  gap_count = 2;
  wrap_around_count = 3;
}

near_wrap-InSync : InSync near_wrap receiver
near_wrap-InSync = record { in_range = omega arith; expects = λ _. refl }

lose-uncounted_example :
    let (r, v') = validate receiver (next (lose 9 near_wrap)).0 in
    ((r ≡ wrap_around) ⊎ (r ≡ duplicate)) × (v'.gap_count ≡ 2)
lose-uncounted_example =
    lose-uncounted 9 near_wrap receiver near_wrap-InSync refl (omega arith) (omega arith)

abbrev early : Validator
early = record receiver { expected_sequence = 7 }

validate_all-IsCounted_example :
    IsCounted 7 (7 ∷ 9 ∷ 20 ∷ []) early (validate_all early (7 ∷ 9 ∷ 20 ∷ [])).1
validate_all-IsCounted_example = validate_all-IsCounted (7 ∷ 9 ∷ 20 ∷ []) early refl (omega arith)
