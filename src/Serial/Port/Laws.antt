-- ===== src/Serial/Port/Laws.antt =====
-- When `open` returns, and which time-out reaches the terminal.
use com_lib.Posix.{done}
use com_lib.Serial.Defs.{Tty, SerialPort, report_error, set_healthy}
use com_lib.Serial.Settings.{deciseconds, after_set, after_get, apply_settings}
use com_lib.Serial.Port.{
  launch_if_wanted, returned, drop_file, after_settings, after_open, open_port,
}
use com_lib.Prelude.{if◌then◌else◌, ℕ, ◌+◌, ◌*◌, ◌≤◌, ◌<◌, ◌↔◌, true, false, none, some, ◌≡◌, arith}

-- The time-out that reaches the terminal is the configured one in tenths of a second, cut to eight
-- bits: it is at most the configured one, and less than a tenth of a second below it just if that is
-- under 25.6 seconds.
deciseconds_exact :
    (ms : ℕ) → (deciseconds ms * 100 ≤ ms) × ((ms < deciseconds ms * 100 + 100) ↔ (ms < 25600))
unfolding deciseconds
deciseconds_exact ms = ground arith

module _ {K : Type 0} (os : Tty K) where
  pub apply_settings_locked : (p : SerialPort K) → (apply_settings os p).1.locked ≡ p.locked
  unfolding apply_settings after_get after_set report_error
  apply_settings_locked p = ground arith

  -- `open` of a closed port whose device opens returns if the settings are refused, with the descriptor
  -- closed again, and never returns if they are applied: it asks `shouldSpawnReceiveThread`, which locks
  -- the mutex that `open` holds.
  pub open_port_blocks :
      (p : SerialPort K) (fd : ℕ) (k : K)
      → p.locked ≡ false
      → p.file_descriptor ≡ none
      → os.open_file p.config.device p.config.non_blocking p.kernel ≡ (done fd, k)
      → let (applied, q) =
          apply_settings os (record p { locked = true; file_descriptor = some fd; kernel = k }) in
        open_port os p
        ≡ (if applied then none else some (false, record (drop_file os q) { locked = false }))
  unfolding open_port after_open after_settings returned launch_if_wanted set_healthy
  open_port_blocks p fd k free closed opened = grind (
    arith,
    apply_settings_locked (record p { locked = true; file_descriptor = some fd; kernel = k }),
  )
