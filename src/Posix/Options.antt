-- ===== src/Posix/Options.antt =====
-- Options that several transports set in the same way: `timeval` from milliseconds, options one after
-- the other with their results ignored, and `O_NONBLOCK`.
use com_lib.Posix.{Os, Answer, done, failed, SocketOption, receive_timeout, send_timeout}
use com_lib.Posix.Lawful.{IsLawful}
use com_lib.Prelude.{
  ℕ, ◌*◌, ◌/◌, ◌%◌, ◌+◌, ◌<◌, List, [], ◌∷◌, ◌++◌, ltb, if◌then◌else◌, bit_or, ◌≡◌, refl, ◌∙◌,
  arith,
}

-- `tv_sec` and `tv_usec`.
abbrev pub seconds : ℕ → ℕ
seconds ms = ms / 1000

abbrev pub microseconds : ℕ → ℕ
microseconds ms = ms % 1000 * 1000

-- The two time-out options, each left out where it is zero.
unfoldable pub timeout_options : ℕ → ℕ → List SocketOption
timeout_options receive_ms send_ms =
    (if ltb 0 receive_ms
      then receive_timeout (seconds receive_ms) (microseconds receive_ms) ∷ []
      else [])
    ++ (if ltb 0 send_ms then send_timeout (seconds send_ms) (microseconds send_ms) ∷ [] else [])

-- The value of the option is the time-out, and its microseconds are in range.
timeval_exact :
    (ms : ℕ) → (seconds ms * 1000000 + microseconds ms ≡ ms * 1000) × (microseconds ms < 1000000)
timeval_exact ms = omega arith

module _ {K : Type 0} (os : Os K) where
  unfoldable pub set_options : ℕ → List SocketOption → K → K
  set_options fd [] k = k
  set_options fd (o ∷ rest) k = set_options fd rest (os.set_option fd o k).1

  -- The flags are written back only if they could be read.
  unfoldable pub write_flags : ℕ → Answer ℕ × K → K
  write_flags fd (done flags, k) = (os.set_flags fd (bit_or flags os.nonblock) k).1
  write_flags fd (failed e, k) = k

  unfoldable pub set_nonblocking : ℕ → K → K
  unfolding write_flags
  set_nonblocking fd k = write_flags fd (os.get_flags fd k)

  module _ (descriptors : K → List ℕ) (lawful : IsLawful os descriptors) where
    pub set_options-descriptors :
        (fd : ℕ) (options : List SocketOption) (k : K)
        → descriptors (set_options fd options k) ≡ descriptors k
    unfolding set_options
    set_options-descriptors fd [] k = refl
    set_options-descriptors fd (o ∷ rest) k =
        set_options-descriptors fd rest (os.set_option fd o k).1 ∙ lawful.after_option fd o k

    write_flags-descriptors :
        (fd : ℕ) (r : Answer ℕ × K) → descriptors (write_flags fd r) ≡ descriptors r.1
    unfolding write_flags
    write_flags-descriptors fd (done flags, k) =
        lawful.after_set_flags fd (bit_or flags os.nonblock) k
    write_flags-descriptors fd (failed e, k) = refl

    pub set_nonblocking-descriptors :
        (fd : ℕ) (k : K) → descriptors (set_nonblocking fd k) ≡ descriptors k
    unfolding set_nonblocking
    set_nonblocking-descriptors fd k =
        write_flags-descriptors fd (os.get_flags fd k) ∙ lawful.after_get_flags fd k
