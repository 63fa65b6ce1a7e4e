-- ===== src/Callback/Tests.antt =====
-- The theorem on the callback registry at a run: thread 0 copies callback 7, thread 1 clears the registry
-- and registers 8, and thread 0 still calls 7.
use com_lib.Callback.{
  Action, setting, clearing, copying, calling, Registry, new_registry, clear, notify, run,
}
use com_lib.Callback.Order.{calls_of, run-calls_of}
use com_lib.Prelude.{ℕ, List, [], ◌∷◌, ◌++◌, some, ◌≡◌, refl, arith}

abbrev registered : Registry ℕ
registered = record (new_registry {F = ℕ}) { callback = some 7 }

abbrev meanwhile : List (Action ℕ)
meanwhile = clearing ∷ copying 1 ∷ calling 1 ∷ setting (some 8) ∷ []

run-calls_of_example :
    calls_of 0 (run (copying 0 ∷ meanwhile ++ calling 0 ∷ []) registered).calls ≡ 7 ∷ []
unfolding calls_of
run-calls_of_example = run-calls_of 0 meanwhile registered (omega arith)

notify_once : (notify 0 registered).calls ≡ (0, 7) ∷ []
unfolding notify
notify_once = refl

cleared : (notify 0 (clear registered)).calls ≡ []
unfolding notify clear
cleared = refl
