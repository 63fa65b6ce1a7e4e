-- ===== src/Assert/Laws.antt =====
-- What a sequence of assertions does in each build.
use com_lib.Assert.{
  Build, is_strict, Outcome, returned, halted, Pointer, is_null, Handler, default_assertion_failed,
  assert_check, assert_always, comm_assert, safe_deref,
}
use com_lib.Prelude.{
  Bool, true, ◌&&◌, ◌||◌, not, List, [], ◌∷◌, none, some, if◌then◌else◌, ◌≡◌, refl, arith,
}

-- The checks that a function makes, in order.
pub data Check : Type 0 where
  always : Bool → Check
  guarded : Bool → Check
  pointer_check : Pointer → Check

-- What the checks ask for: in a build below level B without debugging only those that are always made.
unfoldable pub holds : Build → Check → Bool
holds build (always condition) = condition
holds build (guarded condition) = condition || (not (is_strict build.level) && build.no_debug)
holds build (pointer_check pointer) = not (is_null pointer)

unfoldable pub all_hold : Build → List Check → Bool
unfolding holds
all_hold build [] = true
all_hold build (c ∷ checks) = holds build c && all_hold build checks

module _ {H : Type 0} (build : Build) (handler : Handler H) where
  unfoldable pub check : Check → H → Outcome H (Unit {0})
  unfolding assert_always comm_assert safe_deref
  check (always condition) s = assert_always handler condition s
  check (guarded condition) s = comm_assert build handler condition s
  check (pointer_check pointer) s = elim (safe_deref handler pointer s) [
    | returned p s' ↦ returned tt s'
    | halted s' ↦ halted s'
  ]

  unfoldable pub continue : Outcome H (Unit {0}) → (H → Outcome H (Unit {0})) → Outcome H (Unit {0})
  continue (returned u s) next = next s
  continue (halted s) next = halted s

  unfoldable pub check_all : List Check → H → Outcome H (Unit {0})
  unfolding check continue
  check_all [] s = returned tt s
  check_all (c ∷ checks) s = continue (check c s) (check_all checks)

  abbrev pub handled : H → H
  handled s = elim handler [ none ↦ s | some handle ↦ handle s ]

  check_lem :
      (c : Check) (s : H)
      → check c s ≡ (if holds build c then returned tt s else halted (handled s))
  unfolding check holds assert_always comm_assert safe_deref assert_check default_assertion_failed
  check_lem (always condition) s = ground arith
  check_lem (guarded condition) s = ground arith
  check_lem (pointer_check pointer) s = ground arith

  -- A sequence of checks returns with the state as it was if all hold that the build makes. If one fails, the
  -- handler runs once, if there is one, and the program then stays in the endless loop: no handler
  -- can return from a failed assertion.
  pub check_all-all_hold :
      (checks : List Check) (s : H)
      → check_all checks s ≡ (if all_hold build checks then returned tt s else halted (handled s))
  unfolding check_all all_hold continue
  check_all-all_hold [] s = refl
  check_all-all_hold (c ∷ checks) s = ground (arith, check_lem c s, check_all-all_hold checks s)
