-- ===== src/Pcan/Transfer/Intake.antt =====
-- What a call of `receive` hands out, and what a refusal leaves behind.
use com_lib.Buffer.{FixedBuffer}
use com_lib.Mixin
use com_lib.Transport.{is_receive_enabled, count_received}
use com_lib.Pcan.Defs.{
  Message, Driver, PcanBasic, get_payload_limit, record_receive, record_success,
}
use com_lib.Pcan.Transfer.{
  fill_payload, read_back, smaller, read_frame, hand_out, take_frame, receive,
}
use com_lib.Pcan.Transfer.Payload.{fill_payload-Holds, read_back-Holds}
use com_lib.Prelude.Int.{ℤ, pos}
use com_lib.Prelude.{
  ℕ, ◌≤◌, ◌<◌, min, Bool, true, List, Option, none, some, length, length-take, take, ◌≡◌, ◌≢◌, refl,
  ap, sym, ◌∙◌, subst, arith,
}

-- How many bytes of a frame a call hands out that asks for at most `max_size`.
abbrev pub taken_size : Bool → ℕ → Message → ℕ
taken_size is_fd max_size m = min m.length (min max_size (get_payload_limit is_fd))

module _ {D : Type 0} (drv : Driver D) where
  -- What a call of `receive` leaves behind when the driver has a frame.
  abbrev pub Received : PcanBasic D → ℕ → ℕ → Option (ℤ × List ℕ × PcanBasic D) → Type 0
  Received p max_size now none = ⊥
  Received p max_size now (some (result, out, p')) =
      let (status, m, d) = read_frame drv p in
      let n = taken_size p.config.enable_fd max_size m in
      (result ≡ pos n)
      × (out ≡ take n m.bytes)
      × (p'.device ≡ d)
      × (p'.healthy ≡ true)
      × (p'.initialized ≡ p.initialized)
      × (p'.safety ≡ Mixin.record_success p.safety now)
      × (p'.stats ≡ count_received n p.stats)

  out_of :
      (is_fd : Bool) (max_size : ℕ) (m : Message)
      → taken_size is_fd max_size m ≤ length m.bytes
      → read_back (
          fill_payload
            (get_payload_limit is_fd)
            (smaller m.length (smaller max_size (get_payload_limit is_fd)))
            m.bytes)
        ≡ take (taken_size is_fd max_size m) m.bytes
  out_of is_fd max_size m inside =
      let size : smaller m.length (smaller max_size (get_payload_limit is_fd))
          ≡ taken_size is_fd max_size m =
        ground arith in
      rw size (
        read_back-Holds m.bytes (taken_size is_fd max_size m) _
          (fill_payload-Holds (get_payload_limit is_fd) (taken_size is_fd max_size m) m.bytes
            (ground arith) (ground arith) inside)
          inside (ground arith))

  hand_out_lem :
      (p : PcanBasic D) (limit : ℕ) (b : FixedBuffer ℕ) (now : ℕ) (out : List ℕ)
      → read_back b ≡ out
      → length out ≤ limit
      → hand_out drv p limit b now
        ≡ some (
          pos (length out),
          out,
          record (record_success (record_receive (length out) p) now) { healthy = true },
        )
  unfolding hand_out
  hand_out_lem p limit b now out e fits = rw e (ground arith)

  abbrev limit_of : PcanBasic D → ℕ → ℕ
  limit_of p max_size = smaller max_size (get_payload_limit p.config.enable_fd)

  abbrev after_read : PcanBasic D → PcanBasic D
  after_read p = record p { device = (read_frame drv p).2 }

  receive-hand_out :
      (p : PcanBasic D) (buffer : List ℕ) (max_size now : ℕ)
      → is_receive_enabled p.config.direction ≡ true
      → p.initialized ≡ true
      → 0 < max_size
      → (read_frame drv p).0 ≡ drv.error_ok
      → drv.error_ok ≢ drv.error_qrcvempty
      → receive drv p buffer max_size now
        ≡ hand_out drv
            (after_read p)
            (limit_of p max_size)
            (fill_payload
              (get_payload_limit p.config.enable_fd)
              (smaller (read_frame drv p).1.length (limit_of p max_size))
              (read_frame drv p).1.bytes)
            now
  unfolding receive take_frame
  receive-hand_out p buffer max_size now enabled opened asked ok other = ground arith

  abbrev handed : PcanBasic D → List ℕ → ℕ → PcanBasic D
  handed p out now = record (record_success (record_receive (length out) (after_read p)) now) {
    healthy = true;
  }

  handed-Received :
      (p : PcanBasic D) (max_size now : ℕ) (out : List ℕ)
      → out
        ≡ take
            (taken_size p.config.enable_fd max_size (read_frame drv p).1)
            (read_frame drv p).1.bytes
      → length out ≡ taken_size p.config.enable_fd max_size (read_frame drv p).1
      → Received p max_size now (some (pos (length out), out, handed p out now))
  unfolding record_success record_receive count_received
  handed-Received p max_size now out e l =
      (ap pos l, e, refl, refl, refl, refl, ap (λ n. count_received n p.stats) l)

  -- An open device that may receive hands out the first bytes of the frame that the driver has: as many
  -- as the frame counts, but no more than the caller asks for and one frame can hold. The caller asks
  -- for at least one, the frame's array holds as many, and the driver's codes for success and for an
  -- empty queue differ. `receive` returns how many, counts them and one message, records a success and
  -- leaves the device healthy.
  pub receive-Received :
      (p : PcanBasic D) (buffer : List ℕ) (max_size now : ℕ)
      → is_receive_enabled p.config.direction ≡ true
      → p.initialized ≡ true
      → 0 < max_size
      → (read_frame drv p).0 ≡ drv.error_ok
      → drv.error_ok ≢ drv.error_qrcvempty
      → taken_size p.config.enable_fd max_size (read_frame drv p).1
        ≤ length (read_frame drv p).1.bytes
      → Received p max_size now (receive drv p buffer max_size now)
  receive-Received p buffer max_size now enabled opened asked ok other inside =
      subst (Received p max_size now) (sym whole) (handed-Received p max_size now out refl counted)
    where
      out : List ℕ
      out =
          take (taken_size p.config.enable_fd max_size (read_frame drv p).1)
            (read_frame drv p).1.bytes

      counted : length out ≡ taken_size p.config.enable_fd max_size (read_frame drv p).1
      counted = length-take _ _ ∙ omega arith

      whole : receive drv p buffer max_size now ≡ some (pos (length out), out, handed p out now)
      whole =
          receive-hand_out p buffer max_size now enabled opened asked ok other
          ∙ hand_out_lem (after_read p) (limit_of p max_size) _ now out
              (out_of p.config.enable_fd max_size (read_frame drv p).1 inside)
              (ground (arith, counted))
