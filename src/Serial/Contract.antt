-- ===== src/Serial/Contract.antt =====
-- `SerialPort` as an implementation of the interface.
use com_lib.Posix.{Answer, done, failed}
use com_lib.Transport.Link
use com_lib.Transport.Link.{error_result}
use com_lib.Interface.{Communication, Sent, Taken, delivered, received, nothing, IsAccounted}
use com_lib.Serial.Defs.{
  Tty, SerialPort, report_error, record_send, record_receive, set_healthy, has_file,
}
use com_lib.Posix.{is_again}
use com_lib.Transport.{
  Statistics, unsupported_operation, not_open, send_failed, receive_failed, is_send_enabled,
  is_receive_enabled,
}
use com_lib.Serial.Port.{after_write, send, after_read, receive, drop_file}
use com_lib.Serial.Port.{close}
use com_lib.Prelude.{
  ℕ, Bool, true, false, List, Option-cases, if◌then◌else◌, Bool-cases, inl, inr, ◌≡◌, refl, arith,
}

module _ {K : Type 0} (os : Tty K) where
  pub get_statistics : SerialPort K → Statistics
  get_statistics p = p.link.stats

  pub is_healthy : SerialPort K → Bool
  is_healthy p = p.link.healthy

  -- The destructor: `close`, and the join of a thread that is left.
  pub destroy : SerialPort K → SerialPort K
  destroy p =
      let q = (close os p).1 in
      if q.link.joinable then record q { link = record q.link { joinable = false } } else q

  abbrev pub serial_port : Communication (SerialPort K)
  serial_port = record {
    is_open = λ p. has_file p;
    close = close os;
    send = send os;
    receive = receive os;
    destroy = destroy;
    get_statistics = get_statistics;
    is_healthy = is_healthy;
    link = λ p. p.link;
    has_thread = λ p. p.link.joinable;
    is_steady = λ p. true;
  }

  after_write-Sent :
      (answer : Answer ℕ × K) (p : SerialPort K)
      → Sent p.link (after_write os answer p).0 (after_write os answer p).1.link
  unfolding after_write report_error record_send
  after_write-Sent (failed e, k) p = Sent.refused send_failed refl refl
  after_write-Sent (done n, k) p = delivered n refl refl

  send-Sent :
      (p : SerialPort K) (bytes : List ℕ) → Sent p.link (send os p bytes).0 (send os p bytes).1.link
  unfolding send report_error
  send-Sent p bytes = elim (Bool-cases (is_send_enabled p.config.direction)) [
    | inr off ↦ rw (off, send) (Sent.refused unsupported_operation refl refl)
    | inl on ↦ elim (Option-cases p.file_descriptor) [
      | inl shut ↦ rw (on, shut, send) (Sent.refused not_open refl refl)
      | inr (fd, held) ↦ rw (on, held, send) (after_write-Sent _ p)
    ]
  ]

  after_read-Taken :
      (answer : Answer (List ℕ) × K) (p : SerialPort K)
      → Taken p.link
          (after_read os answer p).0
          (after_read os answer p).1
          (after_read os answer p).2.link
  unfolding after_read report_error record_receive set_healthy Link.report_error
  after_read-Taken (failed e, k) p = elim (Bool-cases (is_again e)) [
    | inl later ↦ rw (later, after_read) (nothing refl refl)
    | inr broken ↦ rw (broken, after_read) (Taken.refused receive_failed refl refl)
  ]
  after_read-Taken (done bytes, k) p = received refl refl

  receive-Taken :
      (p : SerialPort K) (buffer : List ℕ) (max_size : ℕ)
      → Taken p.link
          (receive os p buffer max_size).0
          (receive os p buffer max_size).1
          (receive os p buffer max_size).2.link
  unfolding receive report_error
  receive-Taken p buffer max_size = elim (Bool-cases (is_receive_enabled p.config.direction)) [
    | inr off ↦ rw (off, receive) (Taken.refused unsupported_operation refl refl)
    | inl on ↦ elim (Option-cases p.file_descriptor) [
      | inl shut ↦ rw (on, shut, receive) (Taken.refused not_open refl refl)
      | inr (fd, held) ↦ rw (on, held, receive) (after_read-Taken _ p)
    ]
  ]

  close-false : (p : SerialPort K) → ((close os p).0 ≡ true) × (has_file (close os p).1 ≡ false)
  unfolding close drop_file
  close-false p = ground arith

  destroy-false :
      (p : SerialPort K) → (has_file (destroy p) ≡ false) × ((destroy p).link.joinable ≡ false)
  unfolding destroy
  destroy-false p = ground (arith, close-false p)

  observed :
      (p : SerialPort K) → (get_statistics p ≡ p.link.stats) × (is_healthy p ≡ p.link.healthy)
  unfolding get_statistics is_healthy
  observed p = (refl, refl)

  send_closed :
      (p : SerialPort K) (bytes : List ℕ)
      → has_file p ≡ false
      → ((send os p bytes).0 ≡ error_result) × (has_file (send os p bytes).1 ≡ false)
  unfolding send report_error
  send_closed p bytes h = ground arith

  receive_closed :
      (p : SerialPort K) (buffer : List ℕ) (max_size : ℕ)
      → has_file p ≡ false
      → ((receive os p buffer max_size).0 ≡ error_result)
        × (has_file (receive os p buffer max_size).2 ≡ false)
  unfolding receive report_error
  receive_closed p buffer max_size h = ground arith

  pub serial_port-IsAccounted : IsAccounted serial_port
  serial_port-IsAccounted = record {
    sends = send-Sent;
    receives = receive-Taken;
    closes = close-false;
    destroys = λ p steady. destroy-false p;
    stays_steady = λ p bytes buffer max_size steady. (refl, refl, refl);
    observes = observed;
    closed_send = send_closed;
    closed_receive = receive_closed;
  }
