-- ===== src/Interface.antt =====
-- What a client of include/comm/core/interface.hpp sees: `ICommunication`, as the calls that move data,
-- with `close`. `open` is left to the transports, since that of the serial port need not return, and so
-- are `configure` and the callbacks, which take a different configuration each.
-- `Communication` has the calls, `IsAccounted` what each of them promises of its result, the statistics
-- and the error callback; `Accounts` is about a client, `Transports` about the transports. TCP is not among
-- them: its `send` may return the number of bytes sent before an error without counting them.
pub mod Accounts
pub mod Transports
use com_lib.Transport.{ErrorCode, Statistics}
use com_lib.Transport.Link
use com_lib.Transport.Link.{Link, error_result}
use com_lib.Prelude.Int.{ℤ, pos}
use com_lib.Prelude.{ℕ, Bool, true, false, List, [], ◌∷◌, length, ◌≡◌}

-- `link` is the part of the state that the transports share, and `has_thread` whether there is a thread
-- that has not been joined. `is_steady` says that a monitor thread is there only while its flag tells it to
-- run; a transport without one always is. The destructor leaves an object of which only
-- the descriptors and the threads still matter.
pub record Communication (S : Type 0) : Type 0 where
  pub is_open : S → Bool
  pub close : S → Bool × S
  pub send : S → List ℕ → ℤ × S
  pub receive : S → List ℕ → ℕ → ℤ × List ℕ × S
  pub destroy : S → S
  pub get_statistics : S → Statistics
  pub is_healthy : S → Bool
  pub link : S → Link
  pub has_thread : S → Bool
  pub is_steady : S → Bool

-- A send counts what it returns, does nothing, or reports one error.
pub data Sent (l : Link) (r : ℤ) (l' : Link) : Type 0 where
  delivered : (n : ℕ) → r ≡ pos n → l' ≡ Link.record_send n l → Sent l r l'
  idle : r ≡ pos 0 → l' ≡ l → Sent l r l'
  refused : (code : ErrorCode) → r ≡ error_result → l' ≡ Link.report_error code l → Sent l r l'

-- A receive counts the bytes that it hands over, has none, or fails, with an error reported or silently.
pub data Taken (l : Link) (r : ℤ) (buffer : List ℕ) (l' : Link) : Type 0 where
  received :
      r ≡ pos (length buffer)
      → l' ≡ record (Link.record_receive (length buffer) l) { healthy = true }
      → Taken l r buffer l'
  nothing : r ≡ pos 0 → l' ≡ l → Taken l r buffer l'
  refused :
      (code : ErrorCode) → r ≡ error_result → l' ≡ Link.report_error code l → Taken l r buffer l'
  silent : r ≡ error_result → l' ≡ l → Taken l r buffer l'

pub record IsAccounted {S : Type 0} (c : Communication S) : Type 0 where
  pub sends :
      (s : S) (bytes : List ℕ) → Sent (c.link s) (c.send s bytes).0 (c.link (c.send s bytes).1)
  pub receives :
      (s : S) (buffer : List ℕ) (max_size : ℕ)
      → Taken
          (c.link s)
          (c.receive s buffer max_size).0
          (c.receive s buffer max_size).1
          (c.link (c.receive s buffer max_size).2)
  pub closes : (s : S) → ((c.close s).0 ≡ true) × (c.is_open (c.close s).1 ≡ false)
  pub destroys :
      (s : S)
      → c.is_steady s ≡ true
      → (c.is_open (c.destroy s) ≡ false) × (c.has_thread (c.destroy s) ≡ false)
  pub stays_steady :
      (s : S) (bytes buffer : List ℕ) (max_size : ℕ)
      → c.is_steady s ≡ true
      → (c.is_steady (c.send s bytes).1 ≡ true)
        × (c.is_steady (c.receive s buffer max_size).2 ≡ true)
        × (c.is_steady (c.close s).1 ≡ true)
  pub observes :
      (s : S) → (c.get_statistics s ≡ (c.link s).stats) × (c.is_healthy s ≡ (c.link s).healthy)
  pub closed_send :
      (s : S) (bytes : List ℕ)
      → c.is_open s ≡ false
      → ((c.send s bytes).0 ≡ error_result) × (c.is_open (c.send s bytes).1 ≡ false)
  pub closed_receive :
      (s : S) (buffer : List ℕ) (max_size : ℕ)
      → c.is_open s ≡ false
      → ((c.receive s buffer max_size).0 ≡ error_result)
        × (c.is_open (c.receive s buffer max_size).2 ≡ false)
