-- ===== src/Posix.antt =====
-- The calls of the operating system that the socket transports make, over an unknown kernel state.
-- A call that fails gives `failed` with its error number. An address is the number that `inet_pton`
-- makes of its text, a text a list of characters. `Posix.Lawful` has what the proofs assume of it.
pub mod Lawful
pub mod Options
pub mod Endpoint
pub mod Sample
use com_lib.Prelude.{ℕ, Bool, true, false, List, Option}

pub data Errno : Type 0 where
  again would_block interrupted in_progress bad_descriptor other : Errno

-- `errno == EAGAIN || errno == EWOULDBLOCK`
abbrev pub is_again : Errno → Bool
is_again again = true
is_again would_block = true
is_again _ = false

pub data Answer {ℓ} (A : Type ℓ) : Type ℓ where
  done : A → Answer A
  failed : Errno → Answer A

-- The sockets that the transports create.
pub data SocketKind : Type 0 where
  stream datagram raw_can : SocketKind

-- The options that they set, with the values.
pub data SocketOption : Type 0 where
  reuse_address no_delay keep_alive broadcast fd_frames : SocketOption
  receive_timeout send_timeout : ℕ → ℕ → SocketOption
  loopback receive_own multicast_loop : Bool → SocketOption
  multicast_ttl : ℕ → SocketOption
  filter_list : List (ℕ × ℕ) → SocketOption
  membership : ℕ → ℕ → SocketOption

-- `struct can_frame` and `struct canfd_frame` of linux/can.h: `can_id`, `can_dlc` or `len`, and `data`.
pub record NativeFrame : Type 0 where
  pub can_id : ℕ
  pub length : ℕ
  pub bytes : List ℕ

pub record Os (K : Type 0) : Type 0 where
  pub create : SocketKind → K → Answer ℕ × K
  pub close_fd : ℕ → K → K
  pub set_option : ℕ → SocketOption → K → Answer (Unit {0}) × K
  pub nonblock : ℕ
  pub get_flags : ℕ → K → Answer ℕ × K
  pub set_flags : ℕ → ℕ → K → Answer (Unit {0}) × K
  pub parse_address : List ℕ → Option ℕ
  pub bind : ℕ → ℕ → ℕ → K → Answer (Unit {0}) × K
  pub connect : ℕ → ℕ → ℕ → K → Answer (Unit {0}) × K
  pub listen : ℕ → ℕ → K → Answer (Unit {0}) × K
  pub accept : ℕ → K → Answer ℕ × K
  pub shutdown : ℕ → K → K
  pub send_bytes : ℕ → List ℕ → K → Answer ℕ × K
  pub receive_bytes : ℕ → ℕ → K → Answer (List ℕ) × K
  pub interface_index : ℕ → List ℕ → K → Answer ℕ × K
  pub bind_interface : ℕ → ℕ → K → Answer (Unit {0}) × K
  pub write_frame : ℕ → Bool → NativeFrame → K → Answer ℕ × K
  pub read_frame : ℕ → Bool → K → Answer NativeFrame × K
