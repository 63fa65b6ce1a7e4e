-- ===== src/Sequence/Loss.antt =====
-- What the validator makes of messages that were lost, skipped or late.
use com_lib.Sequence.{
  Generator, Validator, duplicate, gap, out_of_order, wrap_around, next, validate, validate_all,
  wrap_threshold,
}
use com_lib.Sequence.Stream.{InSync}
use com_lib.Prelude.{
  ℕ, zero, suc, ◌+◌, ◌-◌, ◌%◌, ◌^◌, ◌≤◌, ◌<◌, true, List, [], ◌∷◌, ◌≡◌, ◌≢◌, ◌⊎◌, refl, ◌∙◌, length,
  u32, u64, arith,
}

-- The sender numbers `k` messages that never arrive.
pub lose : ℕ → Generator → Generator
unfolding next
lose zero g = g
lose (suc k) g = lose k (next g).1

lose-counter :
    (k : ℕ) (g : Generator) → g.counter < 2 ^ 32 → (lose k g).counter ≡ u32 (g.counter + k)
unfolding lose
lose-counter zero g h = omega arith
lose-counter (suc k) g h =
    lose-counter k (record { counter = u32 (g.counter + 1) }) (omega arith) ∙ omega arith

-- When a generator and a validator that has heard a message are in step, losses (at least one) that do
-- not cross 2 ^ 32 are counted exactly: the next message to arrive is judged `Gap`,
-- the gap count grows by the number of lost messages, and the two ends agree again.
pub lose-counted :
    (k : ℕ) (g : Generator) (v : Validator)
    → InSync g v
    → v.initialized ≡ true
    → 0 < k
    → g.counter + k < 2 ^ 32
    → let (s, g') = next (lose k g) in
      let (r, v') = validate v s in
      (r ≡ gap) × (v'.gap_count ≡ u64 (v.gap_count + k)) × InSync g' v'
unfolding next validate
lose-counted k g v sync heard pos fits =
    ground (arith, lose-counter k g sync.in_range, sync.expects heard)

-- When they are in step, losses (fewer than 2 ^ 32) that cross 2 ^ 32 are never counted: the next
-- message to arrive is judged `WrapAround` or
-- `Duplicate`, and the gap count stays.
pub lose-uncounted :
    (k : ℕ) (g : Generator) (v : Validator)
    → InSync g v
    → v.initialized ≡ true
    → k < 2 ^ 32
    → 2 ^ 32 ≤ g.counter + k
    → let (r, v') = validate v (next (lose k g)).0 in
      ((r ≡ wrap_around) ⊎ (r ≡ duplicate)) × (v'.gap_count ≡ v.gap_count)
unfolding next validate
lose-uncounted k g v sync heard small crosses =
    ground (arith, lose-counter k g sync.in_range, sync.expects heard)

-- When a generator and a validator that has heard a message are in step, a number above the
-- generator's, and below the last thousand, is taken for a jump ahead, also if it is a late message
-- from before the wrap-around: it is judged `Gap`, and the generator's next number `Duplicate`.
late_desyncs :
    (g : Generator) (v : Validator) (late : ℕ)
    → InSync g v
    → v.initialized ≡ true
    → g.counter < late
    → late < wrap_threshold
    → let (r, v') = validate v late in (r ≡ gap) × ((validate v' (next g).0).0 ≡ duplicate)
unfolding next validate
late_desyncs g v late sync heard above below = ground (arith, sync.expects heard)

-- No call of `validate` ever gives `OutOfOrder`, on any history.
pub never_out_of_order : (v : Validator) (s : ℕ) → (validate v s).0 ≢ out_of_order
unfolding validate
never_out_of_order v s = ground arith

-- Received numbers that rise from `e` on, and stay below the largest one.
abbrev pub IsIncreasing : ℕ → List ℕ → Type 0
IsIncreasing e [] = Unit {0}
IsIncreasing e (s ∷ ss) = (e ≤ s) × (s < 2 ^ 32 - 1) × IsIncreasing (suc s) ss

-- The number that is expected behind them.
abbrev pub after_all : ℕ → List ℕ → ℕ
after_all e [] = e
after_all e (s ∷ ss) = after_all (suc s) ss

after_all-le : (e : ℕ) (ss : List ℕ) → IsIncreasing e ss → e + length ss ≤ after_all e ss
after_all-le e [] h = omega arith
after_all-le e (s ∷ ss) h = omega (arith, after_all-le (suc s) ss h.2)

one_increasing :
    (v : Validator) (s : ℕ)
    → v.initialized ≡ true
    → v.expected_sequence ≤ s
    → s < 2 ^ 32 - 1
    → let v' = (validate v s).1 in
      (v'.initialized ≡ true)
      × (v'.expected_sequence ≡ suc s)
      × (v'.gap_count % 2 ^ 64 ≡ (v.gap_count + (s - v.expected_sequence)) % 2 ^ 64)
      × (v'.duplicate_count ≡ v.duplicate_count)
unfolding validate
one_increasing v s heard up small = ground arith

-- What a rising run of numbers leaves behind in a validator that expected `e`.
pub record IsCounted (e : ℕ) (ss : List ℕ) (v v' : Validator) : Type 0 where
  pub expects : v'.expected_sequence ≡ after_all e ss
  pub skipped : u64 v'.gap_count ≡ u64 (v.gap_count + (v'.expected_sequence - e - length ss))
  pub no_duplicate : v'.duplicate_count ≡ v.duplicate_count

run-IsCounted :
    (e : ℕ) (ss : List ℕ) (v : Validator)
    → v.initialized ≡ true
    → v.expected_sequence ≡ e
    → IsIncreasing e ss
    → IsCounted e ss v (validate_all v ss).1
unfolding validate_all
run-IsCounted e [] v heard ex up = record {
  expects = ex;
  skipped = omega arith;
  no_duplicate = refl;
}
run-IsCounted e (s ∷ ss) v heard ex up =
    let one = one_increasing v s heard (omega arith) up.1 in
    let rest = run-IsCounted (suc s) ss (validate v s).1 one.0 one.1 up.2 in
    record {
      expects = rest.expects;
      skipped = omega (arith, rest.skipped, rest.expects, after_all-le (suc s) ss up.2);
      no_duplicate = rest.no_duplicate ∙ one.3;
    }

-- Over any rising run of received numbers from the expected one on, below the largest number and with
-- whatever gaps, a validator that has heard a message counts as gaps exactly the numbers that were
-- expected and not received (modulo 2 ^ 64), and nothing as a duplicate.
pub validate_all-IsCounted :
    (ss : List ℕ) (v : Validator)
    → v.initialized ≡ true
    → IsIncreasing v.expected_sequence ss
    → IsCounted v.expected_sequence ss v (validate_all v ss).1
validate_all-IsCounted ss v heard up = run-IsCounted v.expected_sequence ss v heard refl up
