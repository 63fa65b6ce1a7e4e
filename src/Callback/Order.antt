-- ===== src/Callback/Order.antt =====
-- What `notify` calls when other threads register and clear callbacks meanwhile.
use com_lib.Callback.{
  Action, setting, clearing, copying, calling, Registry, set_callback, clear, copy, call, act, run,
}
use com_lib.Prelude.{
  ℕ, List, [], ◌∷◌, ◌++◌, Option, none, some, ◌==◌, if◌then◌else◌, ◌≡◌, ◌≢◌, ◌∙◌, refl, arith,
}

module _ {F : Type 0} where
  -- The step is no part of a `notify` of thread `i`.
  abbrev pub IsForeign : ℕ → Action F → Type 0
  IsForeign i (setting f) = Unit
  IsForeign i clearing = Unit
  IsForeign i (copying j) = j ≢ i
  IsForeign i (calling j) = j ≢ i

  abbrev pub AllForeign : ℕ → List (Action F) → Type 0
  AllForeign i [] = Unit
  AllForeign i (a ∷ actions) = IsForeign i a × AllForeign i actions

  -- The calls that thread `i` has made, the last one first.
  unfoldable pub calls_of : ℕ → List (ℕ × F) → List F
  calls_of i [] = []
  calls_of i ((j, f) ∷ calls) = if j == i then f ∷ calls_of i calls else calls_of i calls

  act_foreign :
      (i : ℕ) (a : Action F) (r : Registry F)
      → IsForeign i a
      → ((act a r).copies i ≡ r.copies i) × (calls_of i (act a r).calls ≡ calls_of i r.calls)
  unfolding act set_callback clear copy call calls_of
  act_foreign i (setting f) r h = (refl, refl)
  act_foreign i clearing r h = (refl, refl)
  act_foreign i (copying j) r h = (ground arith, refl)
  act_foreign i (calling j) r h = (ground arith, ground arith)

  run_foreign :
      (i : ℕ) (actions : List (Action F)) (r : Registry F)
      → AllForeign i actions
      → ((run actions r).copies i ≡ r.copies i)
        × (calls_of i (run actions r).calls ≡ calls_of i r.calls)
  unfolding run
  run_foreign i [] r h = (refl, refl)
  run_foreign i (a ∷ actions) r (h, hs) =
      let first = act_foreign i a r h in
      let rest = run_foreign i actions (act a r) hs in (rest.0 ∙ first.0, rest.1 ∙ first.1)

  run-append :
      (first rest : List (Action F)) (r : Registry F)
      → run (first ++ rest) r ≡ run rest (run first r)
  unfolding run
  run-append [] rest r = refl
  run-append (a ∷ first) rest r = run-append first rest (act a r)

  -- The callback that was registered, if any, once more.
  abbrev pub called : Option F → List F → List F
  called none fs = fs
  called (some f) fs = f ∷ fs

  call-calls_of :
      (i : ℕ) (r : Registry F)
      → calls_of i (call i r).calls ≡ called (r.copies i) (calls_of i r.calls)
  unfolding call calls_of
  call-calls_of i r = ground arith

  copy_calls : (i : ℕ) (r : Registry F) → (copy i r).calls ≡ r.calls
  unfolding copy
  copy_calls i r = refl

  copy_own : (i : ℕ) (r : Registry F) → (copy i r).copies i ≡ r.callback
  unfolding copy
  copy_own i r = ground arith

  -- A thread's `notify` calls the callback that was registered at its copy, once, and none if there was
  -- none, whatever other threads set, clear or call before it calls its copy: clearing the registry
  -- does not stop it.
  pub run-calls_of :
      (i : ℕ) (meanwhile : List (Action F)) (r : Registry F)
      → AllForeign i meanwhile
      → calls_of i (run (copying i ∷ meanwhile ++ calling i ∷ []) r).calls
        ≡ called r.callback (calls_of i r.calls)
  unfolding run act
  run-calls_of i meanwhile r h =
      let before = run_foreign i meanwhile (copy i r) h in
      rw (run-append meanwhile (calling i ∷ []) (copy i r)) (
        cc (
          call-calls_of i (run meanwhile (copy i r)),
          before.0,
          before.1,
          copy_own i r,
          copy_calls i r,
        ))
