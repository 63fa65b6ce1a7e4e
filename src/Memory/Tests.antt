-- ===== src/Memory/Tests.antt =====
-- The theorems on the block operations at concrete blocks.
use com_lib.Memory.{safe_copy}
use com_lib.Memory.Copy.{Writes, safe_copy-Writes}
use com_lib.Prelude.{ℕ, List, [], ◌∷◌, some, get_or}

abbrev destination : List ℕ
destination = 1 ∷ 2 ∷ 3 ∷ []

abbrev source : List ℕ
source = 9 ∷ 8 ∷ 7 ∷ 6 ∷ 5 ∷ []

safe_copy-Writes_example :
    Writes 3 (λ i. get_or source i 0) destination (safe_copy (some destination) 3 (some source) 5)
safe_copy-Writes_example = safe_copy-Writes destination source 5
