-- ===== src/SocketCan/Contract.antt =====
-- `SocketCan` as an implementation of the interface.
use com_lib.Posix.{Os, Answer, done, failed}
use com_lib.Transport.Link
use com_lib.Transport.Link.{error_result}
use com_lib.Interface.{Communication, Sent, Taken, delivered, idle, received, nothing, IsAccounted}
use com_lib.SocketCan.Defs.{
  SocketCan, report_error, record_send, record_receive, set_healthy, is_open,
}
use com_lib.Posix.{is_again, NativeFrame}
use com_lib.Transport.{
  Statistics, unsupported_operation, not_open, send_failed, receive_failed, is_send_enabled,
  is_receive_enabled,
}
use com_lib.SocketCan.Transfer.{after_write, send, after_read, receive}
use com_lib.SocketCan.Lifecycle.{drop_socket}
use com_lib.SocketCan.Defs.{stop_receive_loop}
use com_lib.SocketCan.Lifecycle.{close}
use com_lib.Prelude.{
  ℕ, Bool, true, false, List, Option-cases, if◌then◌else◌, Bool-cases, is_empty, inl, inr, ◌≡◌,
  refl, arith,
}

module _ {K : Type 0} (os : Os K) where
  unfoldable pub get_statistics : SocketCan K → Statistics
  get_statistics p = p.link.stats

  pub is_healthy : SocketCan K → Bool
  is_healthy p = p.link.healthy

  -- The destructor: `close`, and the join of a thread that is left.
  pub destroy : SocketCan K → SocketCan K
  destroy p =
      let q = (close os p).1 in
      if q.link.joinable then record q { link = record q.link { joinable = false } } else q

  abbrev pub socket_can : Communication (SocketCan K)
  socket_can = record {
    is_open = λ p. is_open p;
    close = close os;
    send = send os;
    receive = receive os;
    destroy = destroy;
    get_statistics = get_statistics;
    is_healthy = is_healthy;
    link = λ p. p.link;
    has_thread = λ p. p.link.joinable;
    is_steady = λ p. true;
  }

  after_write-Sent :
      (n : ℕ) (answer : Answer ℕ × K) (p : SocketCan K)
      → Sent p.link (after_write os n answer p).0 (after_write os n answer p).1.link
  unfolding after_write report_error record_send
  after_write-Sent n (failed e, k) p = Sent.refused send_failed refl refl
  after_write-Sent n (done w, k) p = delivered n refl refl

  send-Sent :
      (p : SocketCan K) (bytes : List ℕ) → Sent p.link (send os p bytes).0 (send os p bytes).1.link
  unfolding send report_error
  send-Sent p bytes = elim (Bool-cases (is_send_enabled p.config.direction)) [
    | inr off ↦ rw (off, send) (Sent.refused unsupported_operation refl refl)
    | inl on ↦ elim (Option-cases p.socket) [
      | inl shut ↦ rw (on, shut, send) (Sent.refused not_open refl refl)
      | inr (fd, held) ↦ elim (Bool-cases (is_empty bytes)) [
        | inl empty ↦ rw (on, held, empty, send) (idle refl refl)
        | inr full ↦ rw (on, held, full, send) (after_write-Sent _ _ p)
      ]
    ]
  ]

  after_read-Taken :
      (n : ℕ) (answer : Answer NativeFrame × K) (p : SocketCan K)
      → Taken p.link
          (after_read os n answer p).0
          (after_read os n answer p).1
          (after_read os n answer p).2.link
  unfolding after_read report_error record_receive set_healthy Link.report_error
  after_read-Taken n (failed e, k) p = elim (Bool-cases (is_again e)) [
    | inl later ↦ rw (later, after_read) (nothing refl refl)
    | inr broken ↦ rw (broken, after_read) (Taken.refused receive_failed refl refl)
  ]
  after_read-Taken n (done frame, k) p = received refl refl

  receive-Taken :
      (p : SocketCan K) (buffer : List ℕ) (max_size : ℕ)
      → Taken p.link
          (receive os p buffer max_size).0
          (receive os p buffer max_size).1
          (receive os p buffer max_size).2.link
  unfolding receive report_error
  receive-Taken p buffer max_size = elim (Bool-cases (is_receive_enabled p.config.direction)) [
    | inr off ↦ rw (off, receive) (Taken.refused unsupported_operation refl refl)
    | inl on ↦ elim (Option-cases p.socket) [
      | inl shut ↦ rw (on, shut, receive) (Taken.refused not_open refl refl)
      | inr (fd, held) ↦ rw (on, held, receive) (after_read-Taken max_size _ p)
    ]
  ]

  close-false : (p : SocketCan K) → ((close os p).0 ≡ true) × (is_open (close os p).1 ≡ false)
  unfolding close drop_socket stop_receive_loop
  close-false p = ground arith

  destroy-false :
      (p : SocketCan K) → (is_open (destroy p) ≡ false) × ((destroy p).link.joinable ≡ false)
  unfolding destroy
  destroy-false p = ground (arith, close-false p)

  observed : (p : SocketCan K) → (get_statistics p ≡ p.link.stats) × (is_healthy p ≡ p.link.healthy)
  unfolding get_statistics is_healthy
  observed p = (refl, refl)

  send_closed :
      (p : SocketCan K) (bytes : List ℕ)
      → is_open p ≡ false
      → ((send os p bytes).0 ≡ error_result) × (is_open (send os p bytes).1 ≡ false)
  unfolding send report_error
  send_closed p bytes h = ground arith

  receive_closed :
      (p : SocketCan K) (buffer : List ℕ) (max_size : ℕ)
      → is_open p ≡ false
      → ((receive os p buffer max_size).0 ≡ error_result)
        × (is_open (receive os p buffer max_size).2 ≡ false)
  unfolding receive report_error
  receive_closed p buffer max_size h = ground arith

  pub socket_can-IsAccounted : IsAccounted socket_can
  socket_can-IsAccounted = record {
    sends = send-Sent;
    receives = receive-Taken;
    closes = close-false;
    destroys = λ p steady. destroy-false p;
    stays_steady = λ p bytes buffer max_size steady. (refl, refl, refl);
    observes = observed;
    closed_send = send_closed;
    closed_receive = receive_closed;
  }
