-- ===== src/SocketCan/Transfer/Laws.antt =====
-- What reaches the kernel, and what comes back from it.
use com_lib.Posix.{Os, done, NativeFrame}
use com_lib.Transport.{is_receive_enabled, is_send_enabled, count_sent, count_received}
use com_lib.Transport.Link
use com_lib.SocketCan.Defs.{
  CanFrame, SocketCan, payload_limit, record_send, record_receive, set_healthy,
}
use com_lib.SocketCan.Frames.{encode, encode_fd, decode, decode_fd, copy_into}
use com_lib.SocketCan.Frames.RoundTrip.{IsWellFormed, decode-encode, decode_fd-encode_fd}
use com_lib.SocketCan.Transfer.{
  payload_frame, after_write, send, after_read, receive, after_frame, read_frame, after_frame_write,
  write_frame,
}
use com_lib.Prelude.Int.{pos}
use com_lib.Prelude.{
  ℕ, zero, suc, ◌%◌, ◌^◌, ◌≤◌, min, Bool, true, false, ◌&&◌, List, [], ◌∷◌, ◌++◌, some, length,
  take, is_empty, if◌then◌else◌, ◌≡◌, refl, ap, ◌∙◌, arith,
}

-- The kernel's form of a frame that the configuration allows.
abbrev pub native_of : CanFrame → NativeFrame
native_of f = if f.fd_frame then encode_fd f else encode f

decode-native_of :
    (f : CanFrame) (is_fd : Bool)
    → IsWellFormed (payload_limit is_fd) f
    → f.fd_frame ≡ is_fd
    → (f.fd_frame && f.error_frame) ≡ false
    → (if is_fd then decode_fd (native_of f) else decode (native_of f)) ≡ f
decode-native_of f true h e c = simp e (decode_fd-encode_fd f h e (ground (arith, c)))
decode-native_of f false h e c = simp e (decode-encode f h e)

module _ {K : Type 0} (os : Os K) where
  -- A frame of the device's own format, classic or FD, with fields in range and no error frame if it is
  -- an FD one, once written, is what `readFrame` gives if the kernel takes it and gives it back.
  pub read_frame-write_frame :
      (p : SocketCan K) (f : CanFrame) (fd written : ℕ) (k k' : K)
      → IsWellFormed (payload_limit p.config.enable_fd) f
      → f.fd_frame ≡ p.config.enable_fd
      → (f.fd_frame && f.error_frame) ≡ false
      → p.socket ≡ some fd
      → os.write_frame fd p.config.enable_fd (native_of f) p.kernel ≡ (done written, k)
      → os.read_frame fd p.config.enable_fd k ≡ (done (native_of f), k')
      → let (accepted, p') = write_frame os p f in
        (accepted ≡ true) × ((read_frame os p').0 ≡ some f)
  unfolding write_frame read_frame after_frame_write after_frame record_send
  read_frame-write_frame p f fd written k k' fits mode correct opened wrote read =
      ground (arith, decode-native_of f p.config.enable_fd fits mode correct)

  -- A payload whose size is a multiple of 256 loses all its bytes: the frame that `writeFrame` gives the
  -- kernel is empty. If the kernel takes it, the call succeeds all the same and counts a message of no
  -- bytes.
  pub write_frame_lossy :
      (p : SocketCan K) (f : CanFrame) (fd written : ℕ) (k : K)
      → length f.bytes % 256 ≡ 0
      → p.socket ≡ some fd
      → let is_fd = f.fd_frame && p.config.enable_fd in
        let native = if is_fd then encode_fd f else encode f in
        os.write_frame fd is_fd native p.kernel ≡ (done written, k)
        → (native.length ≡ 0)
          × ((write_frame os p f).0 ≡ true)
          × ((write_frame os p f).1.link.stats ≡ count_sent 0 p.link.stats)
  unfolding write_frame after_frame_write record_send Link.record_send encode encode_fd
  write_frame_lossy p f fd written k lost opened wrote = ground arith

  -- What a sender's bytes become at a receiver whose kernel has the frame of `send`.
  abbrev pub delivered : Bool → ℕ → List ℕ → List ℕ
  delivered is_fd max_size bytes =
      take (min (min (length bytes) (payload_limit is_fd)) max_size) bytes

  take-take-append :
      (n m : ℕ) (xs ys : List ℕ) → n ≤ m → m ≤ length xs → take n (take m xs ++ ys) ≡ take n xs
  take-take-append zero m xs ys p q = refl
  take-take-append (suc n) zero xs ys p q = absurd (omega arith)
  take-take-append (suc n) (suc m) [] ys p q = absurd (omega arith)
  take-take-append (suc n) (suc m) (x ∷ xs) ys p q =
      ap (λ l. x ∷ l) (take-take-append n m xs ys (omega arith) (omega arith))

  kept_payload :
      (is_fd : Bool) (max_size : ℕ) (bytes : List ℕ)
      → let frame = payload_frame os is_fd bytes in
        take (min frame.length max_size) frame.bytes ≡ delivered is_fd max_size bytes
  unfolding payload_frame
  kept_payload true max_size bytes =
      ap (λ n. take (min n max_size) (copy_into 64 (min (length bytes) 64) bytes)) small
      ∙ take-take-append (min (min (length bytes) 64) max_size) (min (length bytes) 64) bytes _
          (omega arith) (omega arith)
    where
      small : min (length bytes) 64 % 2 ^ 8 ≡ min (length bytes) 64
      small = omega arith
  kept_payload false max_size bytes =
      ap (λ n. take (min n max_size) (copy_into 8 (min (length bytes) 8) bytes)) small
      ∙ take-take-append (min (min (length bytes) 8) max_size) (min (length bytes) 8) bytes _
          (omega arith) (omega arith)
    where
      small : min (length bytes) 8 % 2 ^ 8 ≡ min (length bytes) 8
      small = omega arith

  -- What one device sends, if the kernel takes its frame, another device whose kernel reads that frame
  -- receives: as many of the bytes as a frame and the caller's limit allow. The sender counts a message
  -- of the bytes in the frame, the receiver one of the bytes that it hands over.
  pub receive-send :
      (p q : SocketCan K) (fd fd' written max_size : ℕ) (bytes buffer : List ℕ) (k k' : K)
      → is_send_enabled p.config.direction ≡ true
      → p.socket ≡ some fd
      → is_empty bytes ≡ false
      → os.write_frame fd p.config.enable_fd (payload_frame os p.config.enable_fd bytes) p.kernel
        ≡ (done written, k)
      → is_receive_enabled q.config.direction ≡ true
      → q.socket ≡ some fd'
      → os.read_frame fd' q.config.enable_fd q.kernel
        ≡ (done (payload_frame os p.config.enable_fd bytes), k')
      → let (result, received, q') = receive os q buffer max_size in
        let expected = delivered p.config.enable_fd max_size bytes in
        let n = min (length bytes) (payload_limit p.config.enable_fd) in
        ((send os p bytes).0 ≡ pos n)
        × ((send os p bytes).1.link.stats ≡ count_sent n p.link.stats)
        × (result ≡ pos (length expected))
        × (received ≡ expected)
        × (q'.link.stats ≡ count_received (length expected) q.link.stats)
  unfolding send receive after_write after_read record_send record_receive set_healthy
      Link.record_send Link.record_receive
  receive-send p q fd fd' written max_size bytes buffer k k' may_send opened full wrote may_receive
        opened' read =
      grind (arith, kept_payload p.config.enable_fd max_size bytes)
