-- ===== src/Callback.antt =====
-- `CallbackRegistry` of include/comm/core/callback.hpp, shared by several threads. A callback is a
-- value of any type `F`; an empty `std::function` is `none`. Each part under the lock is one step, and
-- `notify` is two: the copy under the lock, and the call of the copy after it.
pub mod Order
mod Tests
use com_lib.Prelude.{ℕ, Bool, true, false, List, [], ◌∷◌, Option, none, some, ◌==◌, if◌then◌else◌}

-- What a thread does in one step: `setCallback`, `clear`, and the two parts of `notify`, which name the
-- thread.
pub data Action (F : Type 0) : Type 0 where
  setting : Option F → Action F
  clearing : Action F
  copying : ℕ → Action F
  calling : ℕ → Action F

-- `copies` are the local `callbackCopy` of the threads, `calls` the calls made, the last one first.
pub record Registry (F : Type 0) : Type 0 where
  pub callback : Option F
  pub copies : ℕ → Option F
  pub calls : List (ℕ × F)

module _ {F : Type 0} where
  abbrev pub new_registry : Registry F
  new_registry = record { callback = none; copies = λ i. none; calls = [] }

  unfoldable pub set_callback : Option F → Registry F → Registry F
  set_callback f r = record r { callback = f }

  unfoldable pub clear : Registry F → Registry F
  clear r = record r { callback = none }

  unfoldable pub has_callback : Registry F → Bool
  has_callback r = elim r.callback [ none ↦ false | some f ↦ true ]

  unfoldable pub copy : ℕ → Registry F → Registry F
  copy i r = record r { copies = λ j. if i == j then r.callback else r.copies j }

  unfoldable pub call : ℕ → Registry F → Registry F
  call i r = elim (r.copies i) [ none ↦ r | some f ↦ record r { calls = (i, f) ∷ r.calls } ]

  -- `notify` of one thread with no other in between.
  unfoldable pub notify : ℕ → Registry F → Registry F
  unfolding copy call
  notify i r = call i (copy i r)

  unfoldable pub act : Action F → Registry F → Registry F
  unfolding set_callback clear copy call
  act (setting f) r = set_callback f r
  act clearing r = clear r
  act (copying i) r = copy i r
  act (calling i) r = call i r

  unfoldable pub run : List (Action F) → Registry F → Registry F
  unfolding act
  run [] r = r
  run (a ∷ actions) r = run actions (act a r)
