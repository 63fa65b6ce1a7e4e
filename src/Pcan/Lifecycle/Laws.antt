-- ===== src/Pcan/Lifecycle/Laws.antt =====
-- What opening and closing leave behind.
use com_lib.Pcan.Defs.{Driver, PcanBasic, report_error, start_receive_thread, stop_receive_thread}
use com_lib.Pcan.Lifecycle.{
  start_device, apply_mode, initialize, uninitialize, open_device, close, destroy,
}
use com_lib.Prelude.{◌≡◌, refl, Bool, true, false, Option, none, some, arith}

module _ {D : Type 0} (drv : Driver D) where
  -- What an attempt to open says: it returns; if it succeeds the device is initialised; if it fails an
  -- error was reported. Neither the configuration nor the safety state changes.
  abbrev pub Attempted : PcanBasic D → Option (Bool × PcanBasic D) → Type 0
  Attempted p none = ⊥
  Attempted p (some (true, p')) =
      (p'.initialized ≡ true) × (p'.config ≡ p.config) × (p'.safety ≡ p.safety)
  Attempted p (some (false, p')) =
      (p'.healthy ≡ false) × (p'.config ≡ p.config) × (p'.safety ≡ p.safety)

  abbrev pub ModeSet : PcanBasic D → Bool × PcanBasic D → Type 0
  ModeSet p (true, p') = (p'.initialized ≡ true) × (p'.config ≡ p.config) × (p'.safety ≡ p.safety)
  ModeSet p (false, p') =
      (p'.initialized ≡ true)
      × (p'.healthy ≡ false)
      × (p'.config ≡ p.config)
      × (p'.safety ≡ p.safety)

  pub apply_mode-ModeSet : (p : PcanBasic D) → p.initialized ≡ true → ModeSet p (apply_mode drv p)
  unfolding apply_mode report_error
  apply_mode-ModeSet p h = ground arith

  initialize-Attempted : (p : PcanBasic D) → p.initialized ≡ false → Attempted p (initialize drv p)
  unfolding initialize report_error
  initialize-Attempted p h = ground (
    arith,
    h,
    apply_mode-ModeSet (record p { device = (start_device drv p).1; initialized = true }) refl,
  )

  open_device-Attempted :
      (p : PcanBasic D) → p.initialized ≡ false → Attempted p (open_device drv p)
  unfolding open_device start_receive_thread report_error
  open_device-Attempted p h = ground (arith, initialize-Attempted p h)

  -- What closing leaves: a device that is not initialised, no receive thread, and the statistics, the
  -- configuration and the safety state as before.
  abbrev pub Closed : PcanBasic D → Option (Bool × PcanBasic D) → Type 0
  Closed p none = ⊥
  Closed p (some (closed, p')) =
      (closed ≡ true)
      × (p'.initialized ≡ false)
      × (p'.running ≡ false)
      × (p'.stats ≡ p.stats)
      × (p'.config ≡ p.config)
      × (p'.safety ≡ p.safety)

  close-Closed : (p : PcanBasic D) → Closed p (close drv p)
  unfolding close uninitialize stop_receive_thread
  close-Closed p = ground arith

  -- What is left of a destroyed object: no initialised device and no thread that could be joined.
  abbrev pub Destroyed : PcanBasic D → Option (PcanBasic D) → Type 0
  Destroyed p none = ⊥
  Destroyed p (some p') =
      (p'.initialized ≡ false)
      × (p'.running ≡ false)
      × (p'.joinable ≡ false)
      × (p'.stats ≡ p.stats)
      × (p'.config ≡ p.config)
      × (p'.safety ≡ p.safety)

  destroy-Destroyed : (p : PcanBasic D) → Destroyed p (destroy drv p)
  unfolding destroy
  destroy-Destroyed p = ground (arith, close-Closed p)

  -- Whatever the driver answers, opening a closed device returns, and so do closing and destroying from
  -- any state: no assertion fails. After a successful open the device is initialised, after a failed
  -- one it is not healthy. Close returns true and leaves no initialised device and no running receive
  -- thread, and the destructor leaves none to join either; both keep the statistics. All three keep
  -- the configuration and the safety state.
  pub lifecycle_returns :
      (p q : PcanBasic D)
      → p.initialized ≡ false
      → Attempted p (open_device drv p) × Closed q (close drv q) × Destroyed q (destroy drv q)
  lifecycle_returns p q h = (open_device-Attempted p h, close-Closed q, destroy-Destroyed q)
