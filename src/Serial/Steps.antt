-- ===== src/Serial/Steps.antt =====
-- A serial port under calls of its interface that return and rounds of its receive thread, in any order.
use com_lib.Posix.{Answer, done, failed}
use com_lib.Transport.Link.{error_result}
use com_lib.Serial.Defs.{Tty, SerialConfig, SerialPort, new_serial_port, report_error, set_healthy}
use com_lib.Serial.Settings.{apply_settings}
use com_lib.Serial.Port.{
  start_receive_loop, launch_if_wanted, returned, drop_file, after_settings, after_open, open_port,
  close, send, receive, receive_round, configure, set_receive_callback, set_error_callback,
}
use com_lib.Serial.Port.Laws.{apply_settings_locked}
use com_lib.Prelude.{ℕ, Bool, true, false, List, none, some, ◌≡◌, refl, ◌∙◌, arith}

module _ {K : Type 0} (os : Tty K) where
  pub data Step : SerialPort K → SerialPort K → Type 0 where
    opening :
        (p : SerialPort K) (result : Bool) (q : SerialPort K)
        → open_port os p ≡ some (result, q)
        → Step p q
    closing : (p : SerialPort K) → Step p (close os p).1
    configuring :
        (p : SerialPort K) (config : SerialConfig) (result : Bool) (q : SerialPort K)
        → configure os p config ≡ some (result, q)
        → Step p q
    receive_callback :
        (p : SerialPort K) (present : Bool) (q : SerialPort K)
        → set_receive_callback os p present ≡ some q
        → Step p q
    error_callback : (p : SerialPort K) (present : Bool) → Step p (set_error_callback os p present)
    sending : (p : SerialPort K) (bytes : List ℕ) → Step p (send os p bytes).1
    receiving :
        (p : SerialPort K) (buffer : List ℕ) (max_size : ℕ)
        → Step p (receive os p buffer max_size).2
    thread_round : (p : SerialPort K) → p.link.running ≡ true → Step p (receive_round os p).1

  pub data Steps : SerialPort K → SerialPort K → Type 0 where
    start : (p : SerialPort K) → Steps p p
    followed : (p q r : SerialPort K) → Steps p q → Step q r → Steps p r

  abbrev IsClosed : SerialPort K → Type 0
  IsClosed p = (p.file_descriptor ≡ none) × (p.locked ≡ false)

  drop_file_closed : (p : SerialPort K) → (drop_file os p).file_descriptor ≡ none
  unfolding drop_file
  drop_file_closed p = ground arith

  -- Applied settings make `open` block, refused ones close the file.
  after_settings-IsClosed :
      (r : Bool × SerialPort K) (result : Bool) (q : SerialPort K)
      → r.1.locked ≡ true
      → after_settings os r ≡ some (result, q)
      → IsClosed q
  unfolding after_settings returned launch_if_wanted set_healthy
  after_settings-IsClosed (true, p) result q held e = grind (arith, held, e)
  after_settings-IsClosed (false, p) result q held e = grind (arith, e, drop_file_closed p)

  after_open-IsClosed :
      (r : Answer ℕ × K) (p : SerialPort K) (result : Bool) (q : SerialPort K)
      → p.file_descriptor ≡ none
      → p.locked ≡ true
      → after_open os r p ≡ some (result, q)
      → IsClosed q
  unfolding after_open returned report_error
  after_open-IsClosed (failed e', k) p result q closed held e = grind (arith, closed, e)
  after_open-IsClosed (done fd, k) p result q closed held e =
      let opened = record p { file_descriptor = some fd; kernel = k } in
      after_settings-IsClosed (apply_settings os opened) result q
        (apply_settings_locked os opened ∙ held) e

  open_port-IsClosed :
      (p : SerialPort K) (result : Bool) (q : SerialPort K)
      → IsClosed p
      → open_port os p ≡ some (result, q)
      → IsClosed q
  unfolding open_port returned
  open_port-IsClosed p result q closed e = grind (
    arith,
    closed,
    e,
    after_open-IsClosed (os.open_file p.config.device p.config.non_blocking p.kernel)
        (record p { locked = true }) result q,
  )

  Step-IsClosed : (p q : SerialPort K) → Step p q → IsClosed p → IsClosed q
  unfolding close drop_file configure set_receive_callback launch_if_wanted start_receive_loop
      set_error_callback send receive receive_round report_error
  Step-IsClosed _ _ (opening p result q e) closed = open_port-IsClosed p result q closed e
  Step-IsClosed _ _ (closing p) closed = grind (arith, closed)
  Step-IsClosed _ _ (configuring p config result q e) closed = grind (arith, closed, e)
  Step-IsClosed _ _ (receive_callback p present q e) closed = grind (arith, closed, e)
  Step-IsClosed _ _ (error_callback p present) closed = closed
  Step-IsClosed _ _ (sending p bytes) closed = grind (arith, closed)
  Step-IsClosed _ _ (receiving p buffer max_size) closed = grind (arith, closed)
  Step-IsClosed _ _ (thread_round p running) closed = grind (arith, closed)

  Steps-IsClosed : (p q : SerialPort K) → Steps p q → IsClosed p → IsClosed q
  Steps-IsClosed _ _ (start p) closed = closed
  Steps-IsClosed _ _ (followed p q r before last) closed =
      Step-IsClosed q r last (Steps-IsClosed p q before closed)

  -- No calls that return ever leave a new serial port open: after any of them, `send` and `receive` give
  -- -1, whatever the configuration.
  pub Steps_never_open :
      (config : SerialConfig) (k : K) (q : SerialPort K) (bytes buffer : List ℕ) (max_size : ℕ)
      → Steps (new_serial_port config k) q
      → (q.file_descriptor ≡ none)
        × ((send os q bytes).0 ≡ error_result)
        × ((receive os q buffer max_size).0 ≡ error_result)
  unfolding new_serial_port send receive
  Steps_never_open config k q bytes buffer max_size steps =
      grind (arith, Steps-IsClosed (new_serial_port config k) q steps (refl, refl))
