-- ===== src/SocketCan/Threads.antt =====
-- Several threads in `SocketCAN::send` at once, src/can/socketcan.cpp.
-- The call is cut where the code leaves its locks: the snapshot of configuration and descriptor, the
-- write of the frame, and the record of its result. Each part is one step, and any thread may step
-- between two of them. `log` is no part of the code: it lists the calls in the order of their writes,
-- a call without a write at its snapshot, with the thread, the bytes and the result.
pub mod Effects
pub mod Single
pub mod Linear
pub mod Entries
pub mod Turns
pub mod Order
mod Tests
use com_lib.Posix.{Os, Answer, done, failed}
use com_lib.Transport.Link.{error_result}
use com_lib.Transport.{ErrorCode, unsupported_operation, not_open, send_failed, is_send_enabled}
use com_lib.SocketCan.Defs.{SocketCan, payload_limit, report_error, record_send}
use com_lib.SocketCan.Transfer.{payload_frame}
use com_lib.Prelude.Int.{ℤ, pos}
use com_lib.Prelude.{
  ℕ, min, Bool, not, List, [], ◌∷◌, ◌++◌, map, Option, none, some, length, is_empty, get_elem?, set,
  if◌then◌else◌,
}

-- Where a call stands, with the local variables that are live there.
pub data Stage : Type 0 where
  ready : (bytes : List ℕ) → Stage
  refused : (code : ErrorCode) → Stage
  writing : (fd : ℕ) (is_fd : Bool) (bytes : List ℕ) → Stage
  written : (n : ℕ) (answer : Answer ℕ) → Stage
  returned : (result : ℤ) → Stage

abbrev pub Log : Type 0
Log = List (ℕ × List ℕ × ℤ)

-- What the call returns after the write.
abbrev pub outcome : ℕ → Answer ℕ → ℤ
outcome n (failed e) = error_result
outcome n (done w) = pos n

-- The entry that a step of thread `i` adds.
abbrev pub note : ℕ → Stage → Stage → Log
note i (writing fd is_fd bytes) (written n answer) = (i, bytes, outcome n answer) ∷ []
note i (ready bytes) (returned result) = (i, bytes, result) ∷ []
note i (ready bytes) (refused code) = (i, bytes, error_result) ∷ []
note _ _ _ = []

pub record System (K : Type 0) : Type 0 where
  pub object : SocketCan K
  pub stages : List Stage
  pub log : Log

module _ {K : Type 0} where
  -- The threads before their calls, one for each payload.
  abbrev pub start : SocketCan K → List (List ℕ) → System K
  start p payloads = record { object = p; stages = map ready payloads; log = [] }

  -- The snapshot, and the tests that read only it.
  unfoldable pub aim : SocketCan K → List ℕ → Stage
  aim p bytes =
      if not (is_send_enabled p.config.direction)
      then refused unsupported_operation
      else elim p.socket [
        | none ↦ refused not_open
        | some fd ↦ if is_empty bytes then returned (pos 0) else writing fd p.config.enable_fd bytes
      ]

  module _ (os : Os K) where
    unfoldable pub advance : Stage → SocketCan K → Stage × SocketCan K
    unfolding aim
    advance (ready bytes) p = (aim p bytes, p)
    advance (refused code) p = (returned error_result, report_error code p)
    advance (writing fd is_fd bytes) p =
        let (answer, k) = os.write_frame fd is_fd (payload_frame os is_fd bytes) p.kernel in
        (written (min (length bytes) (payload_limit is_fd)) answer, record p { kernel = k })
    advance (written n (failed e)) p = (returned error_result, report_error send_failed p)
    advance (written n (done w)) p = (returned (pos n), record_send n p)
    advance (returned result) p = (returned result, p)

    abbrev pub stepped : ℕ → Stage → System K → System K
    stepped i s sys =
        let (s', p') = advance s sys.object in
        record { object = p'; stages = set sys.stages i s'; log = sys.log ++ note i s s' }

    -- The turn of thread `i`. An index that names no thread changes nothing.
    unfoldable pub turn : ℕ → System K → System K
    turn i sys = elim (get_elem? sys.stages i) [ none ↦ sys | some s ↦ stepped i s sys ]

    unfoldable pub run : List ℕ → System K → System K
    run [] sys = sys
    run (i ∷ schedule) sys = run schedule (turn i sys)
