-- ===== src/Serial/Port.antt =====
-- The operations of a serial port. `none` is a call that never returns.
pub mod Laws
use com_lib.Posix.{Answer, done, failed, is_again}
use com_lib.Transport.{
  Protocol, serial, ErrorCode, open_failed, unsupported_operation, not_open, send_failed,
  receive_failed, is_send_enabled, is_receive_enabled,
}
use com_lib.Transport.Link
use com_lib.Transport.Link.{error_result, LoopRound, loop_round}
use com_lib.Serial.Defs.{
  Tty, SerialConfig, SerialPort, report_error, record_send, record_receive, set_healthy, has_file,
  unlock,
}
use com_lib.Serial.Settings.{apply_settings}
use com_lib.Prelude.Int.{ℤ, pos}
use com_lib.Prelude.{
  ℕ, Bool, true, false, ◌&&◌, not, List, [], Option, none, some, length, if◌then◌else◌,
}

abbrev pub is_serial : Protocol → Bool
is_serial serial = true
is_serial _ = false

module _ {K : Type 0} (os : Tty K) where
  -- It locks the mutex, and gives it back.
  abbrev pub should_spawn_receive_thread : SerialPort K → Option Bool
  should_spawn_receive_thread p =
      if p.locked
      then none
      else some
          (p.config.spawn_receive_thread && (is_receive_enabled p.config.direction && has_file p))

  -- The thread is started if the caller's lock lets `shouldSpawnReceiveThread` say so.
  unfoldable pub start_receive_loop : SerialPort K → Option (SerialPort K)
  start_receive_loop p = elim (should_spawn_receive_thread p) [
    | none ↦ none
    | some spawns ↦ some (
        if not spawns
        then p
        else if not p.link.has_receive_callback
        then p
        else record p { link = Link.launch p.link })
  ]

  abbrev pub stop_receive_loop : SerialPort K → SerialPort K
  stop_receive_loop p = record p { link = Link.halt p.link }

  -- `if (shouldSpawnReceiveThread() && receiveCallback_.hasCallback()) { startReceiveLoop(); }`
  unfoldable pub launch_if_wanted : SerialPort K → Option (SerialPort K)
  unfolding start_receive_loop
  launch_if_wanted p = elim (should_spawn_receive_thread p) [
    | none ↦ none
    | some spawns ↦ if spawns && p.link.has_receive_callback then start_receive_loop p else some p
  ]

  -- The end of `open`, when the guard of the mutex gives it back.
  unfoldable pub returned : Bool → Option (SerialPort K) → Option (Bool × SerialPort K)
  returned result none = none
  returned result (some p) = some (result, unlock p)

  unfoldable pub drop_file : SerialPort K → SerialPort K
  drop_file p = elim p.file_descriptor [
    | none ↦ p
    | some fd ↦ record p { kernel = os.close_fd fd p.kernel; file_descriptor = none }
  ]

  unfoldable pub after_settings : Bool × SerialPort K → Option (Bool × SerialPort K)
  unfolding returned launch_if_wanted drop_file
  after_settings (false, p) = returned false (some (drop_file p))
  after_settings (true, p) = returned true (launch_if_wanted (set_healthy true p))

  unfoldable pub after_open : Answer ℕ × K → SerialPort K → Option (Bool × SerialPort K)
  unfolding returned after_settings apply_settings
  after_open (failed e, k) p =
      returned false (some (report_error open_failed (record p { kernel = k })))
  after_open (done fd, k) p =
      after_settings (apply_settings os (record p { file_descriptor = some fd; kernel = k }))

  unfoldable pub open_port : SerialPort K → Option (Bool × SerialPort K)
  unfolding after_open returned
  open_port p =
      if p.locked
      then none
      else let p' = record p { locked = true } in
        if has_file p'
        then returned true (some p')
        else after_open (os.open_file p.config.device p.config.non_blocking p.kernel) p'

  -- The remaining calls start without the lock, and give it back before they call one that takes it.
  unfoldable pub close : SerialPort K → Bool × SerialPort K
  unfolding drop_file
  close p = (true, drop_file (stop_receive_loop p))

  unfoldable pub after_write : Answer ℕ × K → SerialPort K → ℤ × SerialPort K
  after_write (failed e, k) p = (error_result, report_error send_failed (record p { kernel = k }))
  after_write (done written, k) p = (pos written, record_send written (record p { kernel = k }))

  unfoldable pub send : SerialPort K → List ℕ → ℤ × SerialPort K
  unfolding after_write
  send p bytes =
      if not (is_send_enabled p.config.direction)
      then (error_result, report_error unsupported_operation p)
      else elim p.file_descriptor [
        | none ↦ (error_result, report_error not_open p)
        | some fd ↦ after_write (os.write fd bytes p.kernel) p
      ]

  unfoldable pub after_read : Answer (List ℕ) × K → SerialPort K → ℤ × List ℕ × SerialPort K
  after_read (failed e, k) p =
      let p' = record p { kernel = k } in
      if is_again e
      then (pos 0, [], p')
      else (error_result, [], set_healthy false (report_error receive_failed p'))
  after_read (done bytes, k) p = (
    pos (length bytes),
    bytes,
    set_healthy true (record_receive (length bytes) (record p { kernel = k })),
  )

  unfoldable pub receive : SerialPort K → List ℕ → ℕ → ℤ × List ℕ × SerialPort K
  unfolding after_read
  receive p buffer max_size =
      if not (is_receive_enabled p.config.direction)
      then (error_result, buffer, report_error unsupported_operation p)
      else elim p.file_descriptor [
        | none ↦ (error_result, buffer, report_error not_open p)
        | some fd ↦ after_read (os.read fd max_size p.kernel) p
      ]

  -- What `configure` does with an open port after `applySettings`.
  unfoldable pub reconfigured : Bool × SerialPort K → Option (Bool × SerialPort K)
  unfolding start_receive_loop
  reconfigured (false, p) = some (false, p)
  reconfigured (true, p) =
      if not p.config.spawn_receive_thread
      then some (true, stop_receive_loop p)
      else if p.config.spawn_receive_thread
          && (p.link.has_receive_callback && is_receive_enabled p.config.direction)
      then elim (start_receive_loop p) [ none ↦ none | some q ↦ some (true, q) ]
      else some (true, p)

  unfoldable pub configure : SerialPort K → SerialConfig → Option (Bool × SerialPort K)
  unfolding reconfigured apply_settings
  configure p config =
      if not (is_serial config.protocol)
      then some (false, p)
      else let p' = record p { config = config } in
        if has_file p' then reconfigured (apply_settings os p') else some (true, p')

  unfoldable pub set_receive_callback : SerialPort K → Bool → Option (SerialPort K)
  unfolding launch_if_wanted
  set_receive_callback p present =
      launch_if_wanted (record p { link = record p.link { has_receive_callback = present } })

  unfoldable pub set_error_callback : SerialPort K → Bool → SerialPort K
  set_error_callback p present = record p { link = record p.link { has_error_callback = present } }

  -- A round of `receiveLoop`.
  unfoldable pub receive_round : SerialPort K → LoopRound × SerialPort K
  unfolding receive
  receive_round p =
      let (result, buffer, q) = receive p [] p.config.rx_buffer_size in
      (loop_round result buffer p.config.receive_thread_sleep, q)
