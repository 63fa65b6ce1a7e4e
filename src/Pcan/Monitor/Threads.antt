-- ===== src/Pcan/Monitor/Threads.antt =====
-- Transfer and recovery leave the receive thread and the configuration alone.
use com_lib.Transport.{ErrorCode, send_failed, receive_failed}
use com_lib.Pcan.Defs.{
  Driver, PcanBasic, report_error, record_success, record_failure, record_send, record_receive,
  get_payload_limit, can_fd_max_payload,
}
use com_lib.Buffer.{FixedBuffer}
use com_lib.Memory.{clip}
use com_lib.Pcan.Lifecycle.{
  apply_mode, start_device, initialize, uninitialize, recover_loop, recover_if_needed,
}
use com_lib.Pcan.Transfer.{
  after_refusal, transmit, check_size, send, hand_out, take_frame, receive, write_frame, read_frame,
  smaller, fill_payload,
}
use com_lib.Prelude.Int.{ℤ}
use com_lib.Prelude.{
  ℕ, zero, suc, ◌≡◌, refl, Bool, true, false, List, Option, none, some, length, arith,
}

module _ {D : Type 0} where
  -- A step that leaves the thread and the configuration alone.
  abbrev pub Keeps : PcanBasic D → PcanBasic D → Type 0
  Keeps p p' = (p'.running ≡ p.running) × (p'.joinable ≡ p.joinable) × (p'.config ≡ p.config)

  abbrev pub Kept : PcanBasic D → Option (Bool × PcanBasic D) → Type 0
  Kept p none = Unit {0}
  Kept p (some (b, p')) = Keeps p p'

  module _ (drv : Driver D) where
    apply_mode-Keeps : (p : PcanBasic D) → Keeps p (apply_mode drv p).1
    unfolding apply_mode report_error
    apply_mode-Keeps p = ground arith

    pub initialize-Kept : (p : PcanBasic D) → Kept p (initialize drv p)
    unfolding initialize report_error
    initialize-Kept p =
        ground (
          arith,
          apply_mode-Keeps (record p { device = (start_device drv p).1; initialized = true }),
        )

    Kept-next :
        (p p' : PcanBasic D) (r : Option (Bool × PcanBasic D)) → Keeps p p' → Kept p' r → Kept p r
    Kept-next p p' r k l = ground arith

    recover_loop-Kept : (n : ℕ) (p : PcanBasic D) → Kept p (recover_loop drv n p)
    unfolding recover_loop
    recover_loop-Kept zero p = (refl, refl, refl)
    recover_loop-Kept (suc n) p =
        one_attempt n p (recover_loop-Kept n) (initialize drv p) (initialize-Kept p)
      where
        one_attempt :
            (n : ℕ) (p : PcanBasic D)
            → ((q : PcanBasic D) → Kept q (recover_loop drv n q))
            → (r : Option (Bool × PcanBasic D)) → Kept p r
            → Kept p (elim r [
              | none ↦ none
              | some (initialized, p') ↦ elim initialized [
                | true ↦ some (true, p')
                | false ↦ recover_loop drv n p'
              ]
            ])
        one_attempt n p rest none h = h
        one_attempt n p rest (some (true, p')) h = h
        one_attempt n p rest (some (false, p')) h =
            Kept-next p p' (recover_loop drv n p') h (rest p')

    recover_if_needed-Kept :
        (p : PcanBasic D) (status : ℕ) → Kept p (recover_if_needed drv p status)
    unfolding recover_if_needed uninitialize
    recover_if_needed-Kept p status = ground (
      arith,
      recover_loop-Kept 3 (record p {
        device = drv.can_uninitialize p.config.handle p.device;
        initialized = false;
      }),
      recover_loop-Kept 3 p,
    )

    abbrev pub KeptState : PcanBasic D → Option (PcanBasic D) → Type 0
    KeptState p none = Unit {0}
    KeptState p (some p') = Keeps p p'

    after_refusal-KeptState :
        (code : ErrorCode) (p : PcanBasic D) (status : ℕ)
        → KeptState p (after_refusal drv code p status)
    unfolding after_refusal record_failure report_error
    after_refusal-KeptState code p status =
        ground (arith, recover_if_needed-Kept (record_failure (report_error code p)) status)

    abbrev pub KeptSend : PcanBasic D → Option (ℤ × PcanBasic D) → Type 0
    KeptSend p none = Unit {0}
    KeptSend p (some (r, p')) = Keeps p p'

    transmit-KeptSend :
        (p : PcanBasic D) (limit : ℕ) (payload : FixedBuffer ℕ) (now : ℕ)
        → KeptSend p (transmit drv p limit payload now)
    unfolding transmit record_success record_send
    transmit-KeptSend p limit payload now = ground (
      arith,
      after_refusal-KeptState send_failed (record p { device = (write_frame drv p payload).1 })
          (write_frame drv p payload).0,
    )

    check_size-Keeps : (p : PcanBasic D) (bytes : List ℕ) → Keeps p (check_size drv p bytes)
    unfolding check_size report_error
    check_size-Keeps p bytes = ground arith

    pub send-KeptSend :
        (p : PcanBasic D) (bytes : List ℕ) (now : ℕ) → KeptSend p (send drv p bytes now)
    unfolding send report_error record_failure
    send-KeptSend p bytes now = ground (
      arith,
      check_size-Keeps p bytes,
      transmit-KeptSend (check_size drv p bytes)
          (get_payload_limit (check_size drv p bytes).config.enable_fd)
          (fill_payload can_fd_max_payload
            (clip (length bytes) (get_payload_limit (check_size drv p bytes).config.enable_fd))
            bytes)
          now,
    )

    abbrev pub KeptReceive : PcanBasic D → Option (ℤ × List ℕ × PcanBasic D) → Type 0
    KeptReceive p none = Unit {0}
    KeptReceive p (some (r, out, p')) = Keeps p p'

    take_frame-KeptReceive :
        (p : PcanBasic D) (buffer : List ℕ) (limit now : ℕ)
        → KeptReceive p (take_frame drv p buffer limit now)
    unfolding take_frame hand_out record_success record_receive
    take_frame-KeptReceive p buffer limit now = ground (
      arith,
      after_refusal-KeptState receive_failed (record p { device = (read_frame drv p).2 })
          (read_frame drv p).0,
    )

    pub receive-KeptReceive :
        (p : PcanBasic D) (buffer : List ℕ) (max_size now : ℕ)
        → KeptReceive p (receive drv p buffer max_size now)
    unfolding receive report_error
    receive-KeptReceive p buffer max_size now = ground (
      arith,
      take_frame-KeptReceive p buffer (smaller max_size (get_payload_limit p.config.enable_fd)) now,
    )
