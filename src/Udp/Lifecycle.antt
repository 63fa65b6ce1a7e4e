-- ===== src/Udp/Lifecycle.antt =====
-- Opening, closing, configuration, the callbacks, the receive thread and the health monitor. The waits are
-- left out.
pub mod Descriptors
use com_lib.Posix.{Os, Answer, done, failed, datagram}
use com_lib.Transport.{Protocol, udp, ErrorCode, open_failed, is_receive_enabled}
use com_lib.Transport.Link
use com_lib.Udp.Defs.{UdpConfig, UdpHandle, Udp, report_error, set_healthy, is_open}
use com_lib.Udp.Setup.{
  uses_multicast, reset_handle, configure_socket, bind_socket, join_multicast_group,
}
use com_lib.Prelude.{
  ℕ, ◌*◌, Bool, true, false, ◌&&◌, ◌||◌, not, Option, none, some, ltb, if◌then◌else◌,
}

abbrev pub is_udp : Protocol → Bool
is_udp udp = true
is_udp _ = false

module _ {K : Type 0} (os : Os K) where
  abbrev pub should_spawn_receive_thread : Udp K → Bool
  should_spawn_receive_thread p =
      p.config.spawn_receive_thread && (is_receive_enabled p.config.direction && is_open p)

  unfoldable pub start_receive_loop : Udp K → Udp K
  start_receive_loop p =
      if not (should_spawn_receive_thread p) || not p.link.has_receive_callback
      then p
      else record p { link = Link.launch p.link }

  unfoldable pub shut_down : Udp K → Udp K
  shut_down p = elim p.handle [
    | none ↦ p
    | some h ↦ record p { kernel = os.shutdown h.socket p.kernel }
  ]

  unfoldable pub stop_receive_loop : Udp K → Udp K
  unfolding shut_down
  stop_receive_loop p =
      if not p.link.running then p else shut_down (record p { link = Link.halt p.link })

  unfoldable pub schedule_health_check : Udp K → Udp K
  schedule_health_check p =
      if p.monitor_running then p else record p { monitor_running = true; monitor_joinable = true }

  unfoldable pub stop_health_monitor : Udp K → Udp K
  stop_health_monitor p =
      if not p.monitor_running
      then p
      else record p { monitor_running = false; monitor_joinable = false }

  -- `if (!step()) { handle_.reset(); return false; }` and what follows.
  unfoldable pub guarded : Bool × Udp K → (Udp K → Bool × Udp K) → Bool × Udp K
  unfolding reset_handle
  guarded (true, p) next = next p
  guarded (false, p) next = (false, reset_handle os p)

  unfoldable pub joined : Udp K → Bool × Udp K
  joined p = if uses_multicast p.config then join_multicast_group os p else (true, p)

  -- The end of `open`.
  unfoldable pub launched : Udp K → Bool × Udp K
  unfolding schedule_health_check start_receive_loop
  launched p =
      let p' = set_healthy true p in
      (
        true,
        schedule_health_check (
            if (p'.config.spawn_receive_thread && is_receive_enabled p'.config.direction)
              && p'.link.has_receive_callback
            then start_receive_loop p'
            else p'),
      )

  unfoldable pub created : Answer ℕ × K → Udp K → Bool × Udp K
  unfolding guarded joined launched configure_socket bind_socket
  created (failed e, k) p = (false, report_error open_failed (record p { kernel = k }))
  created (done sock, k) p =
      guarded
        (configure_socket os
          (record p { handle = some (record { socket = sock; local = none }); kernel = k }))
        (λ p'. guarded (bind_socket os p') (λ q. guarded (joined q) launched))

  unfoldable pub open_device : Udp K → Bool × Udp K
  unfolding created
  open_device p = if is_open p then (true, p) else created (os.create datagram p.kernel) p

  unfoldable pub close : Udp K → Bool × Udp K
  unfolding stop_receive_loop stop_health_monitor reset_handle
  close p = (true, reset_handle os (stop_health_monitor (stop_receive_loop p)))

  abbrev pub differs : Bool → Bool → Bool
  differs a b = if a then not b else b

  -- What `configure` does after `configureSocket`; the old configuration asked for a receive thread or not.
  unfoldable pub reconfigured : Bool → Bool × Udp K → Bool × Udp K
  unfolding stop_receive_loop start_receive_loop
  reconfigured was_spawning (false, p) = (false, p)
  reconfigured was_spawning (true, p) =
      if not p.config.spawn_receive_thread && was_spawning
      then (true, stop_receive_loop p)
      else if p.config.spawn_receive_thread
          && (p.link.has_receive_callback && is_receive_enabled p.config.direction)
      then (true, start_receive_loop p)
      else (true, p)

  unfoldable pub configure : Udp K → UdpConfig → Bool × Udp K
  unfolding open_device close reconfigured configure_socket
  configure p config =
      if not (is_udp config.protocol)
      then (false, p)
      else let p' = record p { config = config } in
        if is_open p && differs p.config.spawn_receive_thread config.spawn_receive_thread
        then open_device (close p').1
        else if is_open p'
        then reconfigured p.config.spawn_receive_thread (configure_socket os p')
        else (true, p')

  unfoldable pub set_receive_callback : Udp K → Bool → Udp K
  unfolding start_receive_loop
  set_receive_callback p present =
      let p' = record p { link = record p.link { has_receive_callback = present } } in
      if (is_open p' && (p'.config.spawn_receive_thread && is_receive_enabled p'.config.direction))
        && p'.link.has_receive_callback
      then start_receive_loop p'
      else p'

  unfoldable pub set_error_callback : Udp K → Bool → Udp K
  set_error_callback p present = record p { link = record p.link { has_error_callback = present } }

  -- `::close(handle_->socket)`, which leaves the handle as it is.
  unfoldable pub close_handle_socket : Udp K → Udp K
  close_handle_socket p = elim p.handle [
    | none ↦ p
    | some h ↦ record p { kernel = os.close_fd h.socket p.kernel }
  ]

  unfoldable pub attempt_rebind : Udp K → Udp K
  unfolding stop_receive_loop close_handle_socket reset_handle open_device
  attempt_rebind p =
      if not p.config.auto_rebind
      then p
      else (open_device (reset_handle os (close_handle_socket (stop_receive_loop p)))).1

  -- A round of `healthMonitorLoop`, with the time since the last activity.
  unfoldable pub monitor_round : ℕ → Udp K → Udp K
  unfolding attempt_rebind
  monitor_round elapsed p =
      if not p.link.healthy && ltb p.config.reconnect_interval elapsed
      then attempt_rebind p
      else if ltb 0 p.config.receive_timeout && ltb (p.config.receive_timeout * 5) elapsed
      then attempt_rebind (set_healthy false p)
      else p
