-- ===== src/Pcan/Lifecycle.antt =====
-- Opening, closing, recovery and configuration.
pub mod Laws
pub mod Recovery
use com_lib.Mixin
use com_lib.Pcan.Defs.{
  Driver, PcanBasicConfig, PcanBasic, report_error, start_receive_thread, stop_receive_thread,
  is_valid_handle, assert, max_recovery_attempts,
}
use com_lib.Transport.{
  Protocol, can, ErrorCode, open_failed, invalid_configuration, is_receive_enabled,
}
use com_lib.Prelude.{
  ℕ, zero, suc, Bool, true, false, ◌&&◌, ◌||◌, not, Option, none, some, ◌==◌, bit_and,
  if◌then◌else◌,
}

abbrev pub is_can : Protocol → Bool
is_can can = true
is_can _ = false

module _ {D : Type 0} (drv : Driver D) where
  open drv use {error_ok, can_initialize, can_initialize_fd, can_uninitialize, can_set_value}

  -- One `CAN_SetValue` of `applyMode`, with the report of its failure.
  set_checked : ℕ → ℕ → PcanBasic D → Bool × PcanBasic D
  set_checked param value p =
      let (status, d) = can_set_value p.config.handle param value p.device in
      let p' = record p { device = d } in
      if status == error_ok then (true, p') else (false, report_error invalid_configuration p')

  unfoldable pub apply_mode : PcanBasic D → Bool × PcanBasic D
  unfolding set_checked
  apply_mode p =
      if not p.initialized
      then (false, p)
      else let (listen_ok, p1) =
          if p.config.listen_only
          then set_checked drv.listen_only_param drv.mode_listen_only p
          else (true, p) in
        if not listen_ok
        then (false, p1)
        else if p1.config.hardware_timestamps
        then set_checked drv.timestamps_param drv.parameter_on p1
        else (true, p1)

  -- The call of the driver, and the state right after it.
  unfoldable pub start_device : PcanBasic D → ℕ × D
  start_device p =
      if p.config.enable_fd
      then can_initialize_fd p.config.handle p.config.fd_bitrate p.device
      else can_initialize p.config.handle p.config.bitrate p.device

  unfoldable pub initialize : PcanBasic D → Option (Bool × PcanBasic D)
  initialize p = assert (not p.initialized) (
      let (status, d) = start_device p in
      if not (status == error_ok)
      then some (false, report_error open_failed (record p { device = d }))
      else let (mode_ok, p2) = apply_mode (record p { device = d; initialized = true }) in
        assert p2.initialized (some (mode_ok, p2)))

  unfoldable pub uninitialize : PcanBasic D → Option (PcanBasic D)
  uninitialize p =
      let p' =
        if p.initialized
        then record p { device = can_uninitialize p.config.handle p.device; initialized = false }
        else p in
      assert (not p'.initialized) (some p')

  unfoldable pub open_device : PcanBasic D → Option (Bool × PcanBasic D)
  open_device p = if p.initialized then some (true, p) else elim (initialize p) [
    | none ↦ none
    | some (opened, p1) ↦
        if not opened
        then some (false, report_error open_failed p1)
        else let p2 = record p1 { healthy = true } in
          let launch = p2.config.spawn_receive_thread && is_receive_enabled p2.config.direction in
          let p3 = if launch && p2.has_receive_callback then start_receive_thread p2 else p2 in
          assert p3.initialized (some (true, p3))
  ]

  unfoldable pub close : PcanBasic D → Option (Bool × PcanBasic D)
  close p =
      let p1 = stop_receive_thread p in
      elim (if p1.initialized then uninitialize p1 else some p1) [
        | none ↦ none
        | some p2 ↦ assert (not p2.initialized) (some (true, p2))
      ]

  -- The destructor: `close`, and the join of a thread that is left.
  unfoldable pub destroy : PcanBasic D → Option (PcanBasic D)
  unfolding close
  destroy p = elim (close p) [
    | none ↦ none
    | some (closed, p1) ↦
        some (if p1.joinable then record p1 { running = false; joinable = false } else p1)
  ]

  -- The attempts that are left. The source sleeps before each.
  unfoldable pub recover_loop : ℕ → PcanBasic D → Option (Bool × PcanBasic D)
  recover_loop zero p = some (false, record p { safety = Mixin.fault p.safety })
  recover_loop (suc n) p = elim (initialize p) [
    | none ↦ none
    | some (initialized, p') ↦ elim initialized [
      | true ↦ some (true, p')
      | false ↦ recover_loop n p'
    ]
  ]

  abbrev pub is_bus_error : ℕ → Bool
  is_bus_error status =
      not (bit_and status drv.error_busoff == 0)
      || (not (bit_and status drv.error_busheavy == 0)
          || not (bit_and status drv.error_anybuserr == 0))

  unfoldable pub recover_if_needed : PcanBasic D → ℕ → Option (Bool × PcanBasic D)
  recover_if_needed p status =
      if not p.config.auto_reconnect
      then some (false, p)
      else if is_bus_error status
      then (elim (uninitialize p) [ none ↦ none | some p1 ↦ recover_loop max_recovery_attempts p1 ])
      else some (false, p)

  -- The start of the receive thread at the end of `configure`.
  restart : PcanBasic D → PcanBasic D
  restart p =
      if p.config.spawn_receive_thread
        && (p.has_receive_callback && is_receive_enabled p.config.direction)
      then start_receive_thread p
      else p

  unfoldable pub configure : PcanBasic D → PcanBasicConfig → Option (Bool × PcanBasic D)
  unfolding restart
  configure p config =
      if not (is_can config.protocol)
      then some (false, p)
      else if not (is_valid_handle config.handle)
      then some (false, p)
      else let p1 = record p { config = config } in
        if p1.initialized
        then (elim (uninitialize (stop_receive_thread p1)) [
          | none ↦ none
          | some p2 ↦ elim (initialize p2) [
            | none ↦ none
            | some (opened, p3) ↦ if not opened then some (false, p3) else some (true, restart p3)
          ]
        ])
        else some (true, restart p1)
