-- ===== src/Pcan/Lifecycle/Recovery.antt =====
-- Bus recovery, and what a failed mode setting does to it.
use com_lib.Mixin
use com_lib.Transport.{open_failed}
use com_lib.Pcan.Defs.{Driver, PcanBasicConfig, PcanBasic, report_error, max_recovery_attempts}
use com_lib.Pcan.Lifecycle.{
  start_device, apply_mode, initialize, uninitialize, open_device, recover_loop, recover_if_needed,
  is_bus_error,
}
use com_lib.Pcan.Lifecycle.Laws.{apply_mode-ModeSet}
use com_lib.Prelude.{
  ℕ, zero, suc, ◌≡◌, ◌⊎◌, refl, Bool, true, false, Option, none, some, arith, ap, ◌∙◌,
}

module _ {D : Type 0} (drv : Driver D) where
  -- The state in which the mode of a device that has just started is set.
  abbrev pub started : PcanBasic D → PcanBasic D
  started p = record p { device = (start_device drv p).1; initialized = true }

  mode_failure :
      (p : PcanBasic D)
      → p.initialized ≡ false
      → (start_device drv p).0 ≡ drv.error_ok
      → (apply_mode drv (started p)).0 ≡ false
      → (initialize drv p ≡ some (false, (apply_mode drv (started p)).1))
        × ((apply_mode drv (started p)).1.initialized ≡ true)
  unfolding initialize
  mode_failure p closed ok failed = ground (arith, apply_mode-ModeSet drv (started p) refl)

  initialize_twice : (p : PcanBasic D) → p.initialized ≡ true → initialize drv p ≡ none
  unfolding initialize
  initialize_twice p opened = ground arith

  -- If the device starts but its mode can not be set, opening fails, and yet the device counts as open:
  -- it stays initialised, and the next call of `open` succeeds at once, without a further attempt to
  -- set the mode.
  pub open_device_mode_failure :
      (p : PcanBasic D)
      → p.initialized ≡ false
      → (start_device drv p).0 ≡ drv.error_ok
      → (apply_mode drv (started p)).0 ≡ false
      → (p' : PcanBasic D) × (open_device drv p ≡ some (false, p'))
        × (p'.initialized ≡ true)
        × (open_device drv p' ≡ some (true, p'))
  unfolding open_device report_error
  open_device_mode_failure p closed ok failed =
      let (e, stays) = mode_failure p closed ok failed in
      (report_error open_failed (apply_mode drv (started p)).1, ground arith, stays, ground arith)

  -- What a recovery that returns leaves behind.
  abbrev pub Recovered : PcanBasic D → ℕ → Option (Bool × PcanBasic D) → Type 0
  Recovered p status none = ⊥
  Recovered p status (some (true, p')) =
      (p.config.auto_reconnect ≡ true)
      × (is_bus_error drv status ≡ true)
      × (p'.initialized ≡ true)
      × (p'.safety ≡ p.safety)
  Recovered p status (some (false, p')) =
      (((p.config.auto_reconnect ≡ false) ⊎ (is_bus_error drv status ≡ false)) × (p' ≡ p))
      ⊎ ((p.config.auto_reconnect ≡ true)
          × (is_bus_error drv status ≡ true)
          × (p'.initialized ≡ false)
          × (p'.safety ≡ Mixin.fault p.safety))

  abbrev Looped : PcanBasic D → Option (Bool × PcanBasic D) → Type 0
  Looped p none = ⊥
  Looped p (some (true, p')) = (p'.initialized ≡ true) × (p'.safety ≡ p.safety)
  Looped p (some (false, p')) = (p'.initialized ≡ false) × (p'.safety ≡ Mixin.fault p.safety)

  abbrev Plain : PcanBasic D → Option (Bool × PcanBasic D) → Type 0
  Plain p none = ⊥
  Plain p (some (true, p')) =
      (p'.initialized ≡ true) × (p'.safety ≡ p.safety) × (p'.config ≡ p.config)
  Plain p (some (false, p')) =
      (p'.initialized ≡ false) × (p'.safety ≡ p.safety) × (p'.config ≡ p.config)

  initialize-Plain :
      (p : PcanBasic D)
      → p.initialized ≡ false
      → p.config.listen_only ≡ false
      → p.config.hardware_timestamps ≡ false
      → Plain p (initialize drv p)
  unfolding initialize apply_mode report_error
  initialize-Plain p closed listen stamps = ground arith

  -- One more attempt after a failed one.
  Looped-next :
      (p p' : PcanBasic D) (r : Option (Bool × PcanBasic D))
      → p'.safety ≡ p.safety
      → Looped p' r
      → Looped p r
  Looped-next p p' r e l = ground arith

  one_attempt :
      (n : ℕ) (p : PcanBasic D)
      → p.config.listen_only ≡ false
      → p.config.hardware_timestamps ≡ false
      → ((q : PcanBasic D)
          → q.initialized ≡ false
          → q.config.listen_only ≡ false
          → q.config.hardware_timestamps ≡ false
          → Looped q (recover_loop drv n q))
      → (r : Option (Bool × PcanBasic D)) → Plain p r
      → Looped p (elim r [
        | none ↦ none
        | some (initialized, p') ↦ elim initialized [
          | true ↦ some (true, p')
          | false ↦ recover_loop drv n p'
        ]
      ])
  one_attempt n p listen stamps rest none h = h
  one_attempt n p listen stamps rest (some (true, p')) (opened, same, config) = (opened, same)
  one_attempt n p listen stamps rest (some (false, p')) (closed', same, config) =
      Looped-next p p' (recover_loop drv n p') same (
        rest p' closed' (ap (λ (c : PcanBasicConfig). c.listen_only) config ∙ listen)
          (ap (λ (c : PcanBasicConfig). c.hardware_timestamps) config ∙ stamps))

  recover_loop-Looped :
      (n : ℕ) (p : PcanBasic D)
      → p.initialized ≡ false
      → p.config.listen_only ≡ false
      → p.config.hardware_timestamps ≡ false
      → Looped p (recover_loop drv n p)
  unfolding recover_loop
  recover_loop-Looped zero p closed listen stamps = (closed, refl)
  recover_loop-Looped (suc n) p closed listen stamps =
      one_attempt n p listen stamps (recover_loop-Looped n) (initialize drv p)
        (initialize-Plain p closed listen stamps)

  -- The device given back to the driver.
  abbrev pub released : PcanBasic D → PcanBasic D
  released p = record p {
    device = drv.can_uninitialize p.config.handle p.device;
    initialized = false;
  }

  -- Where no mode is to be set, recovery returns. If reconnecting is off or the status has no
  -- bus error it gives false and changes nothing. Else it gives true with the device open again and the
  -- safety state as it was, or false with the device closed and one fault reported.
  pub recover_if_needed-Recovered :
      (p : PcanBasic D) (status : ℕ)
      → p.initialized ≡ true
      → p.config.listen_only ≡ false
      → p.config.hardware_timestamps ≡ false
      → Recovered p status (recover_if_needed drv p status)
  unfolding recover_if_needed uninitialize
  recover_if_needed-Recovered p status opened listen stamps =
      ground (arith, recover_loop-Looped max_recovery_attempts (released p) refl listen stamps)

  -- If after a bus error the device starts again but its mode can not be set, recovery never returns: its
  -- second attempt finds the device initialised and fails the precondition of `initialize`.
  pub recover_if_needed_halts :
      (p : PcanBasic D) (status : ℕ)
      → p.config.auto_reconnect ≡ true
      → is_bus_error drv status ≡ true
      → p.initialized ≡ true
      → (start_device drv (released p)).0 ≡ drv.error_ok
      → (apply_mode drv (started (released p))).0 ≡ false
      → recover_if_needed drv p status ≡ none
  unfolding recover_if_needed uninitialize recover_loop
  recover_if_needed_halts p status reconnect bus opened ok failed =
      let (e, stays) = mode_failure (released p) refl ok failed in
      ground (arith, e, initialize_twice (apply_mode drv (started (released p))).1 stays)
