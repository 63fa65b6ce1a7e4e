-- ===== src/Udp/Contract.antt =====
-- `Udp` as an implementation of the interface.
use com_lib.Posix.{Os, Answer, done, failed}
use com_lib.Transport.Link
use com_lib.Transport.Link.{error_result}
use com_lib.Interface.{
  Communication, Sent, Taken, delivered, received, nothing, silent, IsAccounted,
}
use com_lib.Udp.Defs.{Udp, report_error, record_send, record_receive, set_healthy, is_open}
use com_lib.Posix.{is_again}
use com_lib.Transport.{
  Statistics, unsupported_operation, not_open, invalid_configuration, send_failed, receive_failed,
  is_send_enabled, is_receive_enabled,
}
use com_lib.Udp.Transfer.{target_address, ends_receive, after_send, send, after_receive, receive}
use com_lib.Udp.Setup.{reset_handle}
use com_lib.Udp.Lifecycle.{stop_receive_loop, stop_health_monitor, close}
use com_lib.Prelude.{
  ℕ, Bool, true, false, List, Option-cases, if◌then◌else◌, Bool-cases, is_empty, inl, inr, not,
  ◌&&◌, ◌||◌, ◌≡◌, refl, arith,
}

module _ {K : Type 0} (os : Os K) where
  pub get_statistics : Udp K → Statistics
  get_statistics p = p.link.stats

  pub is_healthy : Udp K → Bool
  is_healthy p = p.link.healthy

  -- The destructor: `close`, and the join of a thread that is left.
  pub destroy : Udp K → Udp K
  destroy p =
      let q = (close os p).1 in
      if q.link.joinable then record q { link = record q.link { joinable = false } } else q

  -- The monitor's thread is there only while its flag is set.
  abbrev pub is_steady : Udp K → Bool
  is_steady p = not p.monitor_joinable || p.monitor_running

  abbrev pub udp : Communication (Udp K)
  udp = record {
    is_open = λ p. is_open p;
    close = close os;
    send = send os;
    receive = receive os;
    destroy = destroy;
    get_statistics = get_statistics;
    is_healthy = is_healthy;
    link = λ p. p.link;
    has_thread = λ p. p.link.joinable || p.monitor_joinable;
    is_steady = is_steady;
  }

  after_send-Sent :
      (answer : Answer ℕ × K) (p : Udp K)
      → Sent p.link (after_send os answer p).0 (after_send os answer p).1.link
  unfolding after_send report_error record_send
  after_send-Sent (failed e, k) p = Sent.refused send_failed refl refl
  after_send-Sent (done n, k) p = delivered n refl refl

  send-Sent :
      (p : Udp K) (bytes : List ℕ) → Sent p.link (send os p bytes).0 (send os p bytes).1.link
  unfolding send report_error
  send-Sent p bytes = elim (Bool-cases (is_send_enabled p.config.direction)) [
    | inr off ↦ rw (off, send) (Sent.refused unsupported_operation refl refl)
    | inl on ↦ elim (Option-cases p.handle) [
      | inl shut ↦ rw (on, shut, send) (Sent.refused not_open refl refl)
      | inr (h, held) ↦ elim (Bool-cases (is_empty (target_address p.config))) [
        | inl empty ↦ rw (on, held, empty, send) (Sent.refused invalid_configuration refl refl)
        | inr full ↦ elim (Option-cases (os.parse_address (target_address p.config))) [
          | inl bad ↦ rw (on, held, full, bad, send) (Sent.refused invalid_configuration refl refl)
          | inr (a, good) ↦ rw (on, held, full, good, send) (after_send-Sent _ p)
        ]
      ]
    ]
  ]

  after_receive-Taken :
      (answer : Answer (List ℕ) × K) (p : Udp K)
      → Taken p.link
          (after_receive os answer p).0
          (after_receive os answer p).1
          (after_receive os answer p).2.link
  unfolding after_receive report_error record_receive set_healthy Link.report_error
  after_receive-Taken (failed e, k) p = elim (Bool-cases (is_again e)) [
    | inl later ↦ rw (later, after_receive) (nothing refl refl)
    | inr broken ↦ elim (Bool-cases (not p.link.running && ends_receive e)) [
      | inl ends ↦ rw (broken, ends, after_receive) (silent refl refl)
      | inr reports ↦ rw (broken, reports, after_receive) (Taken.refused receive_failed refl refl)
    ]
  ]
  after_receive-Taken (done bytes, k) p = received refl refl

  receive-Taken :
      (p : Udp K) (buffer : List ℕ) (max_size : ℕ)
      → Taken p.link
          (receive os p buffer max_size).0
          (receive os p buffer max_size).1
          (receive os p buffer max_size).2.link
  unfolding receive report_error
  receive-Taken p buffer max_size = elim (Bool-cases (is_receive_enabled p.config.direction)) [
    | inr off ↦ rw (off, receive) (Taken.refused unsupported_operation refl refl)
    | inl on ↦ elim (Option-cases p.handle) [
      | inl shut ↦ rw (on, shut, receive) (Taken.refused not_open refl refl)
      | inr (h, held) ↦ rw (on, held, receive) (after_receive-Taken _ p)
    ]
  ]

  close-false : (p : Udp K) → ((close os p).0 ≡ true) × (is_open (close os p).1 ≡ false)
  unfolding close reset_handle
  close-false p = ground arith

  pub destroy-false :
      (p : Udp K)
      → is_steady p ≡ true
      → (is_open (destroy p) ≡ false)
        × (((destroy p).link.joinable || (destroy p).monitor_joinable) ≡ false)
  unfolding destroy close stop_receive_loop stop_health_monitor reset_handle
  destroy-false p steady = ground arith

  pub stays_steady :
      (p : Udp K) (bytes buffer : List ℕ) (max_size : ℕ)
      → is_steady p ≡ true
      → (is_steady (send os p bytes).1 ≡ true)
        × (is_steady (receive os p buffer max_size).2 ≡ true)
        × (is_steady (close os p).1 ≡ true)
  unfolding send after_send receive after_receive report_error record_send record_receive
      set_healthy close stop_receive_loop stop_health_monitor reset_handle
  stays_steady p bytes buffer max_size steady = (ground arith, ground arith, ground arith)

  observed : (p : Udp K) → (get_statistics p ≡ p.link.stats) × (is_healthy p ≡ p.link.healthy)
  unfolding get_statistics is_healthy
  observed p = (refl, refl)

  send_closed :
      (p : Udp K) (bytes : List ℕ)
      → is_open p ≡ false
      → ((send os p bytes).0 ≡ error_result) × (is_open (send os p bytes).1 ≡ false)
  unfolding send report_error
  send_closed p bytes h = ground arith

  receive_closed :
      (p : Udp K) (buffer : List ℕ) (max_size : ℕ)
      → is_open p ≡ false
      → ((receive os p buffer max_size).0 ≡ error_result)
        × (is_open (receive os p buffer max_size).2 ≡ false)
  unfolding receive report_error
  receive_closed p buffer max_size h = ground arith

  pub udp-IsAccounted : IsAccounted udp
  udp-IsAccounted = record {
    sends = send-Sent;
    receives = receive-Taken;
    closes = close-false;
    destroys = destroy-false;
    stays_steady = stays_steady;
    observes = observed;
    closed_send = send_closed;
    closed_receive = receive_closed;
  }
