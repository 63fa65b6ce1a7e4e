-- ===== src/Assert.antt =====
-- The assertions of include/comm/core/do178c.hpp, with `NotNull`, `safeDeref` and `isValidEnum`.
-- The handler of a failed assertion is a function on the state `H` of the program; its place, text and
-- message are left out. A build is its design assurance level and whether NDEBUG is defined. Nothing
-- runs after `defaultAssertionFailed`, which loops for ever: `halted` has the state that it spins in.
pub mod Laws
mod Tests
use com_lib.Prelude.{
  ℕ, Bool, true, false, ◌&&◌, ◌||◌, not, List, [], ◌∷◌, Option, none, some, leb, if◌then◌else◌,
}

pub data Level : Type 0 where
  level_a level_b level_c level_d level_e : Level

pub record Build : Type 0 where
  pub level : Level
  pub no_debug : Bool

-- COMM_DO178C_DAL where the build does not set it.
abbrev pub default_level : Level
default_level = level_b

-- COMM_DO178C_STRICT
unfoldable pub is_strict : Level → Bool
is_strict level_a = true
is_strict level_b = true
is_strict _ = false

pub data Outcome (H A : Type 0) : Type 0 where
  returned : A → H → Outcome H A
  halted : H → Outcome H A

-- A pointer, null or to an object with a number.
abbrev pub Pointer : Type 0
Pointer = Option ℕ

abbrev pub is_null : Pointer → Bool
is_null none = true
is_null (some a) = false

-- `g_assertionHandler`, `nullptr` at first.
abbrev pub Handler : Type 0 → Type 0
Handler H = Option (H → H)

module _ {H : Type 0} where
  -- `setAssertionHandler`
  unfoldable pub set_assertion_handler : Handler H → Handler H → Handler H
  set_assertion_handler handler old = handler

  unfoldable pub default_assertion_failed : {A : Type 0} → H → Outcome H A
  default_assertion_failed s = halted s

  unfoldable pub assert_check : Handler H → Bool → H → Outcome H (Unit {0})
  unfolding default_assertion_failed
  assert_check handler true s = returned tt s
  assert_check none false s = default_assertion_failed s
  assert_check (some handle) false s = default_assertion_failed (handle s)

  -- COMM_ASSERT_ALWAYS
  unfoldable pub assert_always : Handler H → Bool → H → Outcome H (Unit {0})
  unfolding assert_check
  assert_always handler condition s = assert_check handler condition s

  -- COMM_ASSERT, which COMM_PRECONDITION, COMM_POSTCONDITION and COMM_INVARIANT call with a message each.
  unfoldable pub comm_assert : Build → Handler H → Bool → H → Outcome H (Unit {0})
  unfolding assert_check
  comm_assert build handler condition s =
      if is_strict build.level || not build.no_debug
      then assert_check handler condition s
      else returned tt s

  -- COMM_UNREACHABLE
  unfoldable pub unreachable : Handler H → H → Outcome H (Unit {0})
  unfolding assert_always
  unreachable handler s = assert_always handler false s

  abbrev pub then_give : {A : Type 0} → A → Outcome H (Unit {0}) → Outcome H A
  then_give a (returned u s) = returned a s
  then_give a (halted s) = halted s

  -- The constructor of `NotNull`, with the pointer that `get` gives afterwards.
  unfoldable pub not_null : Handler H → Pointer → H → Outcome H Pointer
  unfolding assert_always
  not_null handler pointer s = then_give pointer (assert_always handler (not (is_null pointer)) s)

  unfoldable pub safe_deref : Handler H → Pointer → H → Outcome H Pointer
  unfolding assert_always
  safe_deref handler pointer s = then_give pointer (assert_always handler (not (is_null pointer)) s)

-- On the values of the underlying type.
unfoldable pub is_valid_enum : ℕ → ℕ → ℕ → Bool
is_valid_enum value min_val max_val = leb min_val value && leb value max_val
