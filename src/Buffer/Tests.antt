-- ===== src/Buffer/Tests.antt =====
-- The theorems on the fixed buffer at a concrete one.
use com_lib.Buffer.{FixedBuffer, at}
use com_lib.Buffer.Queue.{contents, IsValid}
use com_lib.Buffer.Refinement.{
  Op, push, pop, clearing, resizing, filling, AllAllowed, run, run-abstract_run,
}
use com_lib.Prelude.{ℕ, ◌≡◌, refl, List, [], ◌∷◌, none, some, get_elem?, inl, inr, arith}

abbrev two_of_three : FixedBuffer ℕ
two_of_three = record { size = 2; items = 7 ∷ 8 ∷ 0 ∷ [] }

two_of_three-IsValid : IsValid 3 two_of_three
two_of_three-IsValid = record { within = omega arith; full_array = refl }

abbrev ops : List (Op ℕ)
ops =
    push 9
    ∷ push 4
    ∷ pop
    ∷ resizing 1
    ∷ resizing 4
    ∷ clearing
    ∷ pop
    ∷ filling none 2
    ∷ filling (some (1 ∷ 2 ∷ 3 ∷ 4 ∷ [])) 4
    ∷ []

ops-AllAllowed : AllAllowed 3 ops (contents two_of_three)
ops-AllAllowed =
    (tt, (tt, (tt, (inl (omega arith), (inr (omega arith), (tt, (tt, (tt, (omega arith, tt)))))))))

-- The second push finds no room, and the last array has more items than the buffer.
run-abstract_run_example :
    let (results, b') = run 3 ops two_of_three in
    IsValid 3 b'
    × (results ≡ 1 ∷ 0 ∷ 1 ∷ 1 ∷ 0 ∷ 0 ∷ 0 ∷ 0 ∷ 3 ∷ [])
    × (contents b' ≡ 1 ∷ 2 ∷ 3 ∷ [])
    × ((i : ℕ) → at 3 b' i ≡ get_elem? (1 ∷ 2 ∷ 3 ∷ []) i)
run-abstract_run_example = run-abstract_run 3 ops two_of_three two_of_three-IsValid ops-AllAllowed
