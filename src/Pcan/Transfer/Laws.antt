-- ===== src/Pcan/Transfer/Laws.antt =====
-- What a call of `send` puts on the bus and what a call of `receive` hands out.
use com_lib.Buffer.{FixedBuffer}
use com_lib.Memory.{clip}
use com_lib.Mixin
use com_lib.Transport.{is_send_enabled, saturating_add, count_sent, count_error}
use com_lib.Pcan.Defs.{
  Message, Driver, PcanBasic, get_payload_limit, is_valid_can_payload, report_error, record_send,
  record_success, can_fd_max_payload,
}
use com_lib.Pcan.Transfer.{fill_payload, make_message, write_frame, check_size, transmit, send}
use com_lib.Pcan.Transfer.Payload.{Holds, fill_payload-Holds, frame_bytes-Holds}
use com_lib.Prelude.Int.{ℤ, pos}
use com_lib.Prelude.{
  ℕ, ◌-◌, ◌≤◌, min, Bool, true, false, List, ◌∷◌, ◌++◌, Option, none, some, ltb, if◌then◌else◌,
  length, take, replicate, ◌≡◌, ap, ap₂, sym, ◌∙◌, subst, arith, Bool-cases, inl, inr,
}

-- How many bytes one frame takes of a message.
abbrev pub sent_size : Bool → List ℕ → ℕ
sent_size is_fd bytes = min (get_payload_limit is_fd) (length bytes)

module _ {D : Type 0} (drv : Driver D) where
  -- The frame that carries them: the bytes, zeros behind them, and their number.
  abbrev pub frame : Bool → List ℕ → Message
  frame is_fd bytes = record {
    id = 0;
    length = sent_size is_fd bytes;
    msgtype = drv.message_standard;
    bytes =
        take (sent_size is_fd bytes) bytes
        ++ replicate (get_payload_limit is_fd - sent_size is_fd bytes) 0;
  }

  -- What the driver answers to this frame.
  abbrev pub answer : PcanBasic D → List ℕ → ℕ × D
  answer p bytes =
      if p.config.enable_fd
      then drv.can_write_fd p.config.handle (frame true bytes) p.device
      else drv.can_write p.config.handle (frame false bytes) p.device

  abbrev payload_of : Bool → List ℕ → FixedBuffer ℕ
  payload_of is_fd bytes =
      fill_payload can_fd_max_payload (clip (length bytes) (get_payload_limit is_fd)) bytes

  payload-Holds :
      (is_fd : Bool) (bytes : List ℕ) → Holds bytes (sent_size is_fd bytes) (payload_of is_fd bytes)
  payload-Holds is_fd bytes =
      let size : clip (length bytes) (get_payload_limit is_fd) ≡ sent_size is_fd bytes =
        ground arith in
      rw size (
        fill_payload-Holds can_fd_max_payload (sent_size is_fd bytes) bytes (ground arith)
          (ground arith) (ground arith))

  message_lem :
      (is_fd : Bool) (bytes : List ℕ) (b : FixedBuffer ℕ)
      → Holds bytes (sent_size is_fd bytes) b
      → make_message drv is_fd b ≡ frame is_fd bytes
  unfolding make_message
  message_lem is_fd bytes b h =
      ap₂
        (λ size bytes. record {
          id = 0;
          length = size;
          msgtype = drv.message_standard;
          bytes = bytes;
        })
        (ground (arith, h.size_eq))
        (frame_bytes-Holds bytes (sent_size is_fd bytes) b h (omega arith) (get_payload_limit is_fd)
          (omega arith))

  write_frame_lem :
      (p : PcanBasic D) (bytes : List ℕ) (b : FixedBuffer ℕ)
      → Holds bytes (sent_size p.config.enable_fd bytes) b
      → write_frame drv p b ≡ answer p bytes
  unfolding write_frame
  write_frame_lem p bytes b h = elim (Bool-cases p.config.enable_fd) [
    | inl e ↦ simp e (
        ap (λ m. drv.can_write_fd p.config.handle m p.device)
          (message_lem true bytes b (subst (λ f. Holds bytes (sent_size f bytes) b) e h)))
    | inr e ↦ simp e (
        ap (λ m. drv.can_write p.config.handle m p.device)
          (message_lem false bytes b (subst (λ f. Holds bytes (sent_size f bytes) b) e h)))
  ]

  -- The state after a frame of `n` bytes went out.
  abbrev after_sent : PcanBasic D → ℕ → D → ℕ → PcanBasic D
  after_sent p n d now = record (record_success (record_send n (record p { device = d })) now) {
    healthy = true;
  }

  transmit_sent :
      (p : PcanBasic D) (limit : ℕ) (b : FixedBuffer ℕ) (now : ℕ)
      → b.size ≤ limit
      → (write_frame drv p b).0 ≡ drv.error_ok
      → transmit drv p limit b now
        ≡ some (pos b.size, after_sent p b.size (write_frame drv p b).1 now)
  unfolding transmit
  transmit_sent p limit b now fits ok = ground arith

  -- What a call of `send` leaves behind when the driver takes the frame.
  abbrev pub Sent : PcanBasic D → List ℕ → ℕ → Option (ℤ × PcanBasic D) → Type 0
  Sent p bytes now none = ⊥
  Sent p bytes now (some (result, p')) =
      let n = sent_size p.config.enable_fd bytes in
      (result ≡ pos n)
      × (p'.device ≡ (answer p bytes).1)
      × (p'.healthy ≡ true)
      × (p'.initialized ≡ true)
      × (p'.safety ≡ Mixin.record_success p.safety now)
      × (p'.stats.bytes_sent ≡ saturating_add p.stats.bytes_sent n)
      × (p'.stats.messages_sent ≡ saturating_add p.stats.messages_sent 1)
      × (p'.stats.error_count ≡ (
          if ltb n (length bytes)
          then saturating_add p.stats.error_count 1
          else p.stats.error_count))

  after_sent-Sent :
      (p : PcanBasic D) (x : ℕ) (xs : List ℕ) (now : ℕ)
      → p.initialized ≡ true
      → let n = sent_size p.config.enable_fd (x ∷ xs) in
        let p1 = check_size drv p (x ∷ xs) in
        Sent p (x ∷ xs) now (some (pos n, after_sent p1 n (answer p1 (x ∷ xs)).1 now))
  unfolding check_size is_valid_can_payload report_error record_success record_send count_sent
      count_error
  after_sent-Sent p x xs now opened = ground arith

  send-transmit :
      (p : PcanBasic D) (x : ℕ) (xs : List ℕ) (now : ℕ)
      → is_send_enabled p.config.direction ≡ true
      → p.initialized ≡ true
      → let p1 = check_size drv p (x ∷ xs) in
        send drv p (x ∷ xs) now
        ≡ transmit drv p1
            (get_payload_limit p1.config.enable_fd)
            (payload_of p1.config.enable_fd (x ∷ xs))
            now
  unfolding send check_size report_error
  send-transmit p x xs now enabled opened = ground arith

  answer-check_size :
      (p : PcanBasic D) (bytes : List ℕ) → answer (check_size drv p bytes) bytes ≡ answer p bytes
  unfolding check_size report_error
  answer-check_size p bytes = ground arith

  check_size_fd :
      (p : PcanBasic D) (bytes : List ℕ)
      → (check_size drv p bytes).config.enable_fd ≡ p.config.enable_fd
  unfolding check_size report_error
  check_size_fd p bytes = ground arith

  transmit_whole :
      (p : PcanBasic D) (bytes : List ℕ) (now : ℕ)
      → (answer p bytes).0 ≡ drv.error_ok
      → let n = sent_size p.config.enable_fd bytes in
        transmit drv p
          (get_payload_limit p.config.enable_fd)
          (payload_of p.config.enable_fd bytes)
          now
        ≡ some (pos n, after_sent p n (answer p bytes).1 now)
  transmit_whole p bytes now ok =
      transmit_sent p (get_payload_limit p.config.enable_fd) b now (ground (arith, h.size_eq))
        (ap (λ (r : ℕ × D). r.0) w ∙ ok)
      ∙ ap₂ (λ n d. some (pos n, after_sent p n d now)) h.size_eq (ap (λ (r : ℕ × D). r.1) w)
    where
      b : FixedBuffer ℕ
      b = payload_of p.config.enable_fd bytes

      h : Holds bytes (sent_size p.config.enable_fd bytes) b
      h = payload-Holds p.config.enable_fd bytes

      w : write_frame drv p b ≡ answer p bytes
      w = write_frame_lem p bytes b h

  -- An open device that may send gives every message that is not empty to the driver as one frame: the
  -- first bytes of it, as many as fit. If the driver takes the frame, `send` returns how many bytes
  -- these were, counts them and one message, records a success and leaves the device healthy; a message
  -- that was cut is counted as an error.
  pub send-Sent :
      (p : PcanBasic D) (x : ℕ) (xs : List ℕ) (now : ℕ)
      → is_send_enabled p.config.direction ≡ true
      → p.initialized ≡ true
      → (answer p (x ∷ xs)).0 ≡ drv.error_ok
      → Sent p (x ∷ xs) now (send drv p (x ∷ xs) now)
  send-Sent p x xs now enabled opened ok =
      subst (Sent p (x ∷ xs) now) (sym whole) (after_sent-Sent p x xs now opened)
    where
      p1 : PcanBasic D
      p1 = check_size drv p (x ∷ xs)

      whole :
          let n = sent_size p.config.enable_fd (x ∷ xs) in
          send drv p (x ∷ xs) now ≡ some (pos n, after_sent p1 n (answer p1 (x ∷ xs)).1 now)
      whole =
          send-transmit p x xs now enabled opened
          ∙ transmit_whole p1 (x ∷ xs) now
              (ap (λ (r : ℕ × D). r.0) (answer-check_size p (x ∷ xs)) ∙ ok)
          ∙ ap
              (λ f. some (
                pos (sent_size f (x ∷ xs)),
                after_sent p1 (sent_size f (x ∷ xs)) (answer p1 (x ∷ xs)).1 now,
              ))
              (check_size_fd p (x ∷ xs))
