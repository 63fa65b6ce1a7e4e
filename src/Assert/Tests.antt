-- ===== src/Assert/Tests.antt =====
-- Assertions in a release build of level C and with the defaults.
use com_lib.Assert.{
  level_c, default_level, Build, is_strict, Handler, halted, unreachable, is_valid_enum,
}
use com_lib.Assert.Laws.{
  Check, always, guarded, pointer_check, check_all, all_hold, check_all-all_hold,
}
use com_lib.Prelude.{ℕ, ◌+◌, true, false, List, [], ◌∷◌, none, some, ◌≡◌, refl}

abbrev release : Build
release = record { level = level_c; no_debug = true }

-- Counts its calls.
abbrev counting : Handler ℕ
counting = some (λ n. n + 1)

abbrev checks : List Check
checks = guarded false ∷ always true ∷ pointer_check none ∷ always false ∷ []

lenient_release : check_all release counting checks 0 ≡ halted 1
unfolding all_hold is_strict
lenient_release = check_all-all_hold release counting checks 0

-- By default the failed assertion halts in a release build too, before the pointer is looked at.
strict_by_default :
    check_all (record { level = default_level; no_debug = true }) counting checks 0 ≡ halted 1
unfolding check_all is_strict
strict_by_default = refl

unreachable_halts : unreachable counting 4 ≡ halted 5
unfolding unreachable
unreachable_halts = refl

out_of_range : is_valid_enum 4 0 3 ≡ false
unfolding is_valid_enum
out_of_range = refl
